-- ===== src/Snaptrade/Callback/Links.antt =====
-- snaptrade/handlers.rs: a callback that has everything it needs links the connection.
use mizan_connect.Base.{
  ◌&&◌, ◌==◌, ℕ, ◌/◌, Str, true, false, ◌≡◌, ◌≢◌, refl, List, [], ◌∷◌, Option, some, update_where,
  exists, All, if◌then◌else◌, arith, keep, first, Any, Bool-cases, ap, inl, ◌∙◌, inr,
}
use mizan_connect.Error.{Result, ok}
use mizan_connect.Exec.{World, statement, select}
use mizan_connect.RateLimit.{nanos_per_second}
use mizan_connect.Snaptrade.Types.{StAuthorization}
use mizan_connect.Snaptrade.Encryption.{done, decrypt}
use mizan_connect.Snaptrade.Errors.{answered, answer_or}
use mizan_connect.Snaptrade.Client.{list_authorizations}
use mizan_connect.Snaptrade.StateToken.{StateClaims, verify}
use mizan_connect.Snaptrade.Repository.{
  StoredConnection, BrokerDb, rows_unique, row_clash, any_row, has_id, completed_row,
  mark_completed, record_event, fetch_any_for_user, owned_by, newest,
}
use mizan_connect.Snaptrade.Repository.Unique.{OneEach}
use mizan_connect.Snaptrade.Actions.{BrokerState, Draw, outcome_or, note, or_recorded}
use mizan_connect.Snaptrade.Actions.Laws.{noted}
use mizan_connect.Snaptrade.Repository.{listed_authorizations}
use mizan_connect.Snaptrade.Callback.Newest.{IsNewest, pick_newest_authorization-some}
use mizan_connect.Snaptrade.Callback.Effect.{with_authorization, IsNamed, matches_iff}
use mizan_connect.Snaptrade.Callback.{
  CallbackQuery, Page, success_html, pick_newest_authorization, slug_of, institution_of, complete,
  resolve, snaptrade_callback,
}

module _ (id now : ℕ) (auth : Str) (slug name : Option Str) where
  abbrev completed : StoredConnection → StoredConnection
  completed a = if has_id id a then completed_row now auth slug name a else a

  row_clash-completed :
      (a b : StoredConnection)
      → b.user_id ≢ a.user_id
      → row_clash a b ≡ false
      → row_clash (completed a) (completed b) ≡ false
  unfolding row_clash
  row_clash-completed a b n h = ground arith

  exists-completed :
      (a : StoredConnection) (rows : List StoredConnection)
      → All (λ b. b.user_id ≢ a.user_id) rows
      → exists (row_clash a) rows ≡ false
      → exists
          (row_clash (completed a))
          (update_where (has_id id) (completed_row now auth slug name) rows)
        ≡ false
  exists-completed a [] n h = refl
  exists-completed a (b ∷ rows) (n, ns) h =
      ground (arith, row_clash-completed a b n, exists-completed a rows ns)

  -- Where a user has one row at most, no index objects to a completion.
  pub rows_unique-completed :
      (rows : List StoredConnection)
      → OneEach rows
      → rows_unique rows ≡ true
      → rows_unique (update_where (has_id id) (completed_row now auth slug name) rows) ≡ true
  unfolding rows_unique
  rows_unique-completed [] one h = refl
  rows_unique-completed (a ∷ rows) (n, one) h =
      ground (arith, exists-completed a rows n, rows_unique-completed rows one)

module _ (user_id now : ℕ) (a : StAuthorization) where
  not_owned :
      (b : StoredConnection) (rows : List StoredConnection)
      → All (λ c. c.user_id ≢ b.user_id) rows
      → owned_by user_id b ≡ true
      → keep (owned_by user_id) rows ≡ []
  not_owned b [] n h = refl
  not_owned b (c ∷ rows) (n, ns) h = let ih = not_owned b rows ns h in ground arith

  -- The active row of the user is the one that the authorization was written to.
  active_linked :
      (rows : List StoredConnection) (row : StoredConnection)
      → OneEach rows
      → newest (keep (owned_by user_id) rows) ≡ some row
      → first
          (λ b. b.user_id == user_id && b.is_active)
          (update_where (λ b. b.id == row.id) (with_authorization now a) rows)
        ≡ some (with_authorization now a row)
  unfolding newest
  active_linked [] row one h = absurd (cc)
  active_linked (b ∷ rows) row (n, one) h = elim (Bool-cases (owned_by user_id b)) [
    | inl e ↦ let alone = not_owned b rows n e in ground arith
    | inr e ↦ let ih = active_linked rows row one in ground arith
  ]

abbrev rows_linked :
    ℕ → StoredConnection → StAuthorization → List StoredConnection → List StoredConnection
rows_linked now row a rows =
    update_where (has_id row.id)
      (completed_row now a.id (slug_of a.brokerage) (institution_of a.brokerage)) rows

-- The page of success, and the rows with the authorization written to the row.
abbrev pub Linked :
    ℕ → StoredConnection → StAuthorization → BrokerDb → Result Page × World BrokerDb → Type 0
Linked now row a d r =
    (r.0 ≡ ok success_html)
    × (r.1.db.broker_connections
        ≡ update_where (λ b. b.id == row.id) (with_authorization now a) d.broker_connections)

module _ (state : BrokerState) (draw : Draw) where
  complete_links :
      (user_id : ℕ) (row : StoredConnection) (a : StAuthorization) (d : BrokerDb)
      → rows_unique (rows_linked draw.row_at row a d.broker_connections) ≡ true
      → Linked draw.row_at row a d
          (complete state draw user_id row (some a) (record { db = d; faults = [] }))
  unfolding mark_completed statement record_event
  complete_links user_id row a d unique = rw unique (refl, refl)

  resolve_links :
      (user_id : ℕ) (row : StoredConnection) (secret : Str) (list : List StAuthorization)
      (a : StAuthorization) (d : BrokerDb)
      → decrypt state.cipher state.key row.snaptrade_user_secret_encrypted ≡ done secret
      → list_authorizations state.snaptrade
          (draw.asked_at / nanos_per_second)
          row.snaptrade_user_id
          secret
        ≡ answered list
      → pick_newest_authorization state.parse_rfc3339 list row.snaptrade_authorization_id ≡ some a
      → rows_unique (rows_linked draw.row_at row a d.broker_connections) ≡ true
      → Linked draw.row_at row a d (resolve state draw user_id row (record { db = d; faults = [] }))
  unfolding outcome_or note or_recorded answer_or
  resolve_links user_id row secret list a d opened listed picked unique =
      let d2 = noted (listed_authorizations row.snaptrade_user_id) d in
      rw opened (rw listed (rw picked (complete_links user_id row a d2 unique)))

  -- A callback leads to a linked connection: with no fault, on a table that respects its indexes and
  -- where a user has one row at most, with a token that is verified, a row of its user that matches
  -- the query, a secret that opens, and a list with an authorization that the row does not record,
  -- the answer is the page of success. The newest such authorization is written to the row and to
  -- no other row, and a search for the active row of the user finds it there.
  pub snaptrade_callback_links :
      (q : CallbackQuery) (token : Str) (claims : StateClaims) (row : StoredConnection)
      (secret : Str) (list : List StAuthorization) (d : BrokerDb)
      → rows_unique d.broker_connections ≡ true
      → OneEach d.broker_connections
      → q.state ≡ some token
      → verify state.jwt state.state_secret (draw.token_at / nanos_per_second) token ≡ ok claims
      → any_row claims.sub d ≡ some row
      → IsNamed q.user_id row.snaptrade_user_id
      → decrypt state.cipher state.key row.snaptrade_user_secret_encrypted ≡ done secret
      → list_authorizations state.snaptrade
          (draw.asked_at / nanos_per_second)
          row.snaptrade_user_id
          secret
        ≡ answered list
      → Any (λ b. row.snaptrade_authorization_id ≢ some b.id) list
      → (a : StAuthorization) × IsNewest state.parse_rfc3339 row.snaptrade_authorization_id list a
        × Linked draw.row_at row a d
            (snaptrade_callback state draw q (record { db = d; faults = [] }))
        × (first
              (λ b. b.user_id == claims.sub && b.is_active)
              (snaptrade_callback state draw q
                (record { db = d; faults = [] })).1.db.broker_connections
            ≡ some (with_authorization draw.row_at a row))
  unfolding snaptrade_callback or_recorded fetch_any_for_user select statement
  snaptrade_callback_links q token claims row secret list d unique one has verified found named
        opened listed new =
      let (a, picked, newest) =
        pick_newest_authorization-some state.parse_rfc3339 row.snaptrade_authorization_id list
          new in
      let matched = (matches_iff q.user_id row.snaptrade_user_id).1 named in
      let still =
        rows_unique-completed row.id draw.row_at a.id (slug_of a.brokerage)
          (institution_of a.brokerage) d.broker_connections one unique in
      let linked : Linked draw.row_at row a d
          (snaptrade_callback state draw q (record { db = d; faults = [] })) =
        rw has (
          rw verified (
            rw found (
              rw matched
                (resolve_links claims.sub row secret list a d opened listed picked still)))) in
      (
        a,
        newest,
        linked,
        ap (first (λ b. b.user_id == claims.sub && b.is_active)) linked.1
            ∙ active_linked claims.sub draw.row_at a d.broker_connections row one found,
      )
