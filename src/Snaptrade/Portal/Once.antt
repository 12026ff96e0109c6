-- ===== src/Snaptrade/Portal/Once.antt =====
-- snaptrade/handlers.rs: a user is registered with SnapTrade once.
use mizan_connect.Base.{ℕ, Str, ◌≡◌, refl, sym, ap, ◌∙◌, [], ◌∷◌, ◌++◌, none, some, keep, length}
use mizan_connect.Error.{ok}
use mizan_connect.Exec.{World, ◌>>=◌}
use mizan_connect.Exec.Laws.{select_then, bind_ok}
use mizan_connect.Snaptrade.Encryption.{done, encrypt}
use mizan_connect.Snaptrade.Repository.{
  BrokerDb, registered, any_row, newest, owned_by, pending_row,
}
use mizan_connect.Snaptrade.Actions.{BrokerState, Draw}
use mizan_connect.Snaptrade.Portal.{register}
use mizan_connect.Snaptrade.Encryption.RoundTrip.{IsCipher, decrypt-encrypt}
use mizan_connect.Snaptrade.Encryption.{nonce_len}
use mizan_connect.Snaptrade.Repository.{fetch_any_for_user, logged_in}
use mizan_connect.Snaptrade.Types.{LoginPortalResponse}
use mizan_connect.Snaptrade.Portal.{limit, pair_for, open_for, open_portal, login_portal}
use mizan_connect.Snaptrade.Portal.Registered.{newest_snoc, register_ok}
use mizan_connect.Snaptrade.Portal.Opened.{Opened, open_ok, stored_ok}

module _ (state : BrokerState) (draw : Draw) (user_id : ℕ) where
  -- A portal for a user without a row: one registration, and a row with the pair that it gave.
  abbrev pub Fresh : Str × Str → Str → Str → BrokerDb → BrokerDb → Type 0
  Fresh pair blob redirect d d' =
      (encrypt state.cipher state.key draw.cipher_nonce pair.1 ≡ done blob)
      × (d'.broker_connections
          ≡ d.broker_connections ++ pending_row draw.row_id draw.row_at user_id pair.0 blob ∷ [])
      × (d'.sent
          ≡ (d.sent ++ registered (state.uuid_text user_id) ∷ []) ++ logged_in pair.0 redirect ∷ [])

  Fresh-ok :
      (w : World BrokerDb) (resp : LoginPortalResponse)
      → any_row user_id w.db ≡ none
      → (login_portal state draw user_id w).0 ≡ ok resp
      → (pair : Str × Str) × (blob : Str) × (redirect : Str) × Fresh pair blob redirect w.db
          (login_portal state draw user_id w).1.db
  unfolding login_portal fetch_any_for_user
  Fresh-ok w resp absent h =
      let read_row = λ (_ : Unit {0}). fetch_any_for_user user_id >>= open_for state draw user_id in
      let (_, _, e1) = bind_ok (limit draw.checked_at user_id) read_row w resp h in
      let w1 = (limit draw.checked_at user_id w).1 in
      let (w2, same, e2, h2) =
        select_then (any_row user_id) (open_for state draw user_id) w1 resp
          (ap (λ r. r.0) (sym e1) ∙ h) in
      let found : any_row user_id w1.db ≡ none = unfold limit in absent in
      let e3 : open_for state draw user_id (any_row user_id w1.db) w2
          ≡ (register state draw user_id >>= open_portal state draw user_id) w2 =
        ap (λ o. open_for state draw user_id o w2) found ∙ (unfold pair_for in refl) in
      let h3 = ap (λ r. r.0) (sym e3) ∙ h2 in
      let (pair, made, e4) =
        bind_ok (register state draw user_id) (open_portal state draw user_id) w2 resp h3 in
      let w3 = (register state draw user_id w2).1 in
      let (blob, sealed, rows, sent) = register_ok state draw user_id w2 pair made in
      let (_, redirect, _, _, _, _, _, rows2, sent2) =
        open_ok state draw user_id pair w3 resp (ap (λ r. r.0) (sym e4) ∙ h3) in
      let run = e1 ∙ e2 ∙ e3 ∙ e4 in
      let old : (w2.db.broker_connections ≡ w.db.broker_connections) × (w2.db.sent ≡ w.db.sent) =
        unfold limit in (ap (λ d. d.broker_connections) same, ap (λ d. d.sent) same) in
      (
        pair,
        blob,
        redirect,
        (
          sealed,
          ap (λ r. r.1.db.broker_connections) run
              ∙ rows2
              ∙ rows
              ∙ ap (λ r. r ++ pending_row draw.row_id draw.row_at user_id pair.0 blob ∷ []) old.0,
          ap (λ r. r.1.db.sent) run
              ∙ sent2
              ∙ ap (λ r. r ++ logged_in pair.0 redirect ∷ []) sent
              ∙ ap
                  (λ r.
                    (r ++ registered (state.uuid_text user_id) ∷ [])
                    ++ logged_in pair.0 redirect ∷ [])
                  old.1,
        ),
      )

-- A user is registered with SnapTrade once. With a cipher that opens what it seals, and a nonce of 12
-- bytes: when a portal has been opened for a user without a row, which sends one registration and
-- one login, every later portal that is opened on those rows sends a login only, with the same
-- SnapTrade user and the same secret as the first, which it has read back from the row.
pub login_portal_reuses :
    (state : BrokerState) (draw draw2 : Draw) (user_id : ℕ) (w w2 : World BrokerDb)
    (resp resp2 : LoginPortalResponse)
    → IsCipher state.cipher
    → length draw.cipher_nonce ≡ nonce_len
    → any_row user_id w.db ≡ none
    → (login_portal state draw user_id w).0 ≡ ok resp
    → w2.db.broker_connections ≡ (login_portal state draw user_id w).1.db.broker_connections
    → (login_portal state draw2 user_id w2).0 ≡ ok resp2
    → (pair : Str × Str) × (blob : Str) × (redirect : Str) × Fresh state draw user_id pair blob
        redirect w.db
        (login_portal state draw user_id w).1.db
      × Opened state draw2 user_id pair w2.db (login_portal state draw2 user_id w2).1.db resp2
login_portal_reuses state draw draw2 user_id w w2 resp resp2 cipher nonce absent first rows second =
    let (pair, blob, redirect, fresh) = Fresh-ok state draw user_id w resp absent first in
    let row = pending_row draw.row_id draw.row_at user_id pair.0 blob in
    let found : any_row user_id w2.db ≡ some row =
      ap (λ r. newest (keep (owned_by user_id) r)) (rows ∙ fresh.1)
      ∙ newest_snoc user_id w.db.broker_connections row absent refl in
    let opened =
      decrypt-encrypt state.cipher cipher state.key draw.cipher_nonce pair.1 blob nonce fresh.0 in
    (
      pair,
      blob,
      redirect,
      fresh,
      stored_ok state draw2 user_id row pair.1 w2 resp2 found opened second,
    )
