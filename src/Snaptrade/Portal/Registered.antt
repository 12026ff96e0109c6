-- ===== src/Snaptrade/Portal/Registered.antt =====
-- snaptrade/handlers.rs: what the registration of a user with SnapTrade leaves.
use mizan_connect.Base.{
  ℕ, Str, ◌≡◌, sym, ap, ◌∙◌, subst, List, [], ◌∷◌, ◌++◌, none, some, keep, arith,
}
use mizan_connect.Error.{ok}
use mizan_connect.Exec.{World, pure, lift, ◌>>=◌}
use mizan_connect.Exec.Laws.{lift_then, statement_then}
use mizan_connect.Snaptrade.Types.{StRegisterUserResponse}
use mizan_connect.Snaptrade.Encryption.{done, encrypt}
use mizan_connect.Snaptrade.Client.{register_user}
use mizan_connect.Snaptrade.Repository.{
  StoredConnection, BrokerDb, registered, newest, owned_by, pending_row, insert_pending,
  insert_pending_in, record_event,
}
use mizan_connect.Snaptrade.Repository.Unique.{store_rows_ok}
use mizan_connect.Snaptrade.Actions.{BrokerState, Draw, outcome_or}
use mizan_connect.Snaptrade.Actions.Laws.{
  noted, outcome_ok, ask_then, audited_then, record_event_rows,
}
use mizan_connect.Snaptrade.Portal.{asked_seconds, initiated_event, register}

pub newest_snoc :
    (user_id : ℕ) (rows : List StoredConnection) (a : StoredConnection)
    → newest (keep (owned_by user_id) rows) ≡ none
    → a.user_id ≡ user_id
    → newest (keep (owned_by user_id) (rows ++ a ∷ [])) ≡ some a
unfolding newest
newest_snoc user_id [] a h e = ground arith
newest_snoc user_id (b ∷ rows) a h e = ground (arith, newest_snoc user_id rows a)

module _ (state : BrokerState) (draw : Draw) (user_id : ℕ) where
  -- What a registration leaves: the pair, and a pending row with the encrypted secret.
  abbrev pub Registered : BrokerDb → BrokerDb → Str × Str → Type 0
  Registered d d' pair =
      (blob : Str) × (encrypt state.cipher state.key draw.cipher_nonce pair.1 ≡ done blob)
      × (d'.broker_connections
          ≡ d.broker_connections ++ pending_row draw.row_id draw.row_at user_id pair.0 blob ∷ [])
      × (d'.sent ≡ d.sent ++ registered (state.uuid_text user_id) ∷ [])

  pub register_ok :
      (w : World BrokerDb) (pair : Str × Str)
      → (register state draw user_id w).0 ≡ ok pair
      → Registered w.db (register state draw user_id w).1.db pair
  unfolding register insert_pending
  register_ok w pair h =
      let row = λ (resp : StRegisterUserResponse).
        λ (blob : Str). pending_row draw.row_id draw.row_at user_id resp.user_id blob in
      let done_it = λ (resp : StRegisterUserResponse).
        λ (_ : ℕ). pure {D = BrokerDb} (resp.user_id, resp.user_secret) in
      let insert = λ (resp : StRegisterUserResponse). λ (blob : Str).
        insert_pending draw.row_id draw.row_at user_id resp.user_id blob >>= done_it resp in
      let seal = λ (resp : StRegisterUserResponse).
        encrypt state.cipher state.key draw.cipher_nonce resp.user_secret in
      let store = λ (resp : StRegisterUserResponse).
        λ (_ : Unit {0}). lift (outcome_or (seal resp)) >>= insert resp in
      let audit = λ (resp : StRegisterUserResponse).
        record_event (initiated_event user_id resp.user_id) >>= store resp in
      let (resp, _, e1, h1) =
        ask_then (registered (state.uuid_text user_id))
          (register_user state.snaptrade (asked_seconds state draw user_id)
            (state.uuid_text user_id))
          audit w pair h in
      let w1 = record w { db = noted (registered (state.uuid_text user_id)) w.db } in
      let event = initiated_event user_id resp.user_id in
      let e2 = audited_then event (store resp) w1 in
      let w2 = (record_event event w1).1 in
      let (blob, sealed, e3, h3) =
        lift_then (outcome_or (seal resp)) (insert resp) w2 pair (ap (λ r. r.0) (sym e2) ∙ h1) in
      let (_, w3, stored, same, e4, h4) =
        statement_then (insert_pending_in (row resp blob)) (done_it resp) w2 pair h3 in
      let is : (resp.user_id, resp.user_secret) ≡ pair = cc h4 in
      let tables =
        store_rows_ok (row resp blob).id _ (w2.db.broker_connections ++ row resp blob ∷ []) w2.db
          stored in
      subst (Registered w.db (register state draw user_id w).1.db) is (
        blob,
        outcome_ok (seal resp) blob sealed,
        ap (λ r. r.1.db.broker_connections) (e1 ∙ e2 ∙ e3 ∙ e4)
            ∙ ap (λ d. d.broker_connections) (same ∙ tables)
            ∙ ap (λ r. r ++ row resp blob ∷ []) (record_event_rows event w1).0,
        ap (λ r. r.1.db.sent) (e1 ∙ e2 ∙ e3 ∙ e4)
            ∙ ap (λ d. d.sent) (same ∙ tables)
            ∙ (record_event_rows event w1).1,
      )
