-- ===== src/Snaptrade/Callback/Effect.antt =====
-- snaptrade/handlers.rs: what a callback that is answered by a page has checked and written.
use mizan_connect.Base.{
  ◌==◌, ℕ, ◌/◌, Str, ◌≡◌, inl, inr, refl, sym, ap, ◌∙◌, subst, List, Option, none, some,
  Option-cases, update_where, codes, true, ◌↔◌, false, str_eq_sound, arith, str_eq_iff,
}
use mizan_connect.Error.{ok, ok_or, app_error, bad_request}
use mizan_connect.Exec.{World, pure, ◌>>=◌, ◌>>◌}
use mizan_connect.Exec.Laws.{lift_then, select_then, statement_then}
use mizan_connect.RateLimit.{nanos_per_second}
use mizan_connect.Snaptrade.Types.{StAuthorization}
use mizan_connect.Snaptrade.Encryption.{done, decrypt}
use mizan_connect.Snaptrade.Errors.{answered, answer_or}
use mizan_connect.Snaptrade.Client.{list_authorizations}
use mizan_connect.Snaptrade.StateToken.{StateClaims, verify}
use mizan_connect.Snaptrade.Repository.{
  StoredConnection, BrokerDb, listed_authorizations, any_row, fetch_any_for_user, has_id,
  completed_row, mark_completed, mark_completed_in,
}
use mizan_connect.Snaptrade.Repository.Unique.{store_rows_ok}
use mizan_connect.Snaptrade.Actions.{
  BrokerState, Draw, outcome_or, note, or_recorded, record_failure,
}
use mizan_connect.Snaptrade.Actions.Laws.{
  noted, outcome_ok, answer_ok, some_ok, or_recorded_then, audited_then, record_event_rows,
}
use mizan_connect.Snaptrade.Callback.{
  CallbackQuery, Page, success_html, pick_newest_authorization, slug_of, institution_of,
  completed_event, matches, none_new, complete, resolve, for_claims, snaptrade_callback,
  record_event,
}

abbrev or_kept : Option Str → Option Str → Option Str
or_kept none old = old
or_kept (some s) old = some s

-- What an authorization makes of the row: it is recorded, with the slug and the name of the
-- institution where SnapTrade says them, and the row is active and not disabled.
abbrev pub with_authorization : ℕ → StAuthorization → StoredConnection → StoredConnection
with_authorization now a b = record b {
  snaptrade_authorization_id = some a.id;
  broker_slug = or_kept (slug_of a.brokerage) b.broker_slug;
  institution_name = or_kept (institution_of a.brokerage) b.institution_name;
  is_active = true;
  disabled = false;
  updated_at = now;
}

-- The SnapTrade user in the query, if there is one, is this one.
abbrev pub IsNamed : Option Str → Str → Type 0
IsNamed o snaptrade_user_id = (returned : Str) → o ≡ some returned → returned ≡ snaptrade_user_id

pub matches_iff :
    (o : Option Str) (snaptrade_user_id : Str)
    → (matches o snaptrade_user_id ≡ ok tt) ↔ IsNamed o snaptrade_user_id
matches_iff none s = (λ h r e. absurd (cc), λ h. refl)
matches_iff (some r) s = (
  λ h q e.
      let sound = str_eq_sound r s in
      let same : r ≡ s = ground arith in let is : r ≡ q = cc e in cc (same, is),
  λ h. let k = (str_eq_iff r s).1 (h r refl) in rw k refl,
)

-- The rows behind a callback that picked `chosen`, and the page that it shows.
abbrev pub Ended :
    ℕ → StoredConnection → Option StAuthorization → BrokerDb → BrokerDb → Page → Type 0
Ended now row none d d' page =
    (d'.broker_connections ≡ d.broker_connections) × (d'.audit_log ≡ d.audit_log)
Ended now row (some a) d d' page =
    (d'.broker_connections
      ≡ update_where (λ b. b.id == row.id) (with_authorization now a) d.broker_connections)
    × (page ≡ success_html)

none_new-Ended :
    (now user_id : ℕ) (row : StoredConnection) (w : World BrokerDb) (page : Page)
    → Ended now row none w.db (none_new user_id row w).1.db page
unfolding record_failure
none_new-Ended now user_id row w page = elim (Option-cases row.snaptrade_authorization_id) [
  | inl e ↦ rw e (refl, refl)
  | inr (a, e) ↦ rw e (refl, refl)
]

module _ (state : BrokerState) (draw : Draw) where
  complete_ok :
      (user_id : ℕ) (row : StoredConnection) (chosen : Option StAuthorization) (w : World BrokerDb)
      (page : Page)
      → (complete state draw user_id row chosen w).0 ≡ ok page
      → Ended draw.row_at row chosen w.db (complete state draw user_id row chosen w).1.db page
  unfolding mark_completed
  complete_ok user_id row none w page h = none_new-Ended draw.row_at user_id row w page
  complete_ok user_id row (some a) w page h =
      let slug = slug_of a.brokerage in
      let name = institution_of a.brokerage in
      let e = completed_event user_id a in
      let end = λ (_ : Unit {0}). pure {D = BrokerDb} success_html in
      let audit = λ (_ : Unit {0}). record_event e >>= end in
      let rows =
        update_where (has_id row.id) (completed_row draw.row_at a.id slug name)
          w.db.broker_connections in
      let (_, w2, done_it, same, run, h2) =
        statement_then (mark_completed_in draw.row_at row.id a.id slug name) audit w page h in
      let run2 = run ∙ audited_then e end w2 in
      (
        ap (λ r. r.1.db.broker_connections) run2
            ∙ (record_event_rows e w2).0
            ∙ ap (λ d. d.broker_connections) (same ∙ store_rows_ok tt tt rows w.db (cc done_it)),
        cc (ap (λ r. r.0) (sym run2) ∙ h),
      )

  -- What the listing and the choice have left.
  abbrev pub Resolved : StoredConnection → BrokerDb → BrokerDb → Page → Type 0
  Resolved row d d' page =
      (secret : Str) × (list : List StAuthorization) × (decrypt state.cipher state.key
          row.snaptrade_user_secret_encrypted
        ≡ done secret)
      × (list_authorizations state.snaptrade (draw.asked_at / nanos_per_second)
            row.snaptrade_user_id secret
          ≡ answered list)
      × Ended draw.row_at row
          (pick_newest_authorization state.parse_rfc3339 list row.snaptrade_authorization_id) d d'
          page

  -- A request in front changes neither the rows nor the audit trail.
  from_noted :
      (user_id : ℕ) (row : StoredConnection) (chosen : Option StAuthorization) (w : World BrokerDb)
      (page : Page)
      → (complete state draw user_id row chosen w).0 ≡ ok page
      → (d : BrokerDb) → w.db.broker_connections ≡ d.broker_connections
      → w.db.audit_log ≡ d.audit_log
      → Ended draw.row_at row chosen d (complete state draw user_id row chosen w).1.db page
  from_noted user_id row none w page h d rows log =
      let (r, l) = complete_ok user_id row none w page h in (r ∙ rows, l ∙ log)
  from_noted user_id row (some a) w page h d rows log =
      let (r, p) = complete_ok user_id row (some a) w page h in
      (
        r
            ∙ ap
                (update_where (has_id row.id) (
                  completed_row draw.row_at a.id (slug_of a.brokerage)
                    (institution_of a.brokerage)))
                rows,
        p,
      )

  resolve_ok :
      (user_id : ℕ) (row : StoredConnection) (w : World BrokerDb) (page : Page)
      → (resolve state draw user_id row w).0 ≡ ok page
      → Resolved row w.db (resolve state draw user_id row w).1.db page
  unfolding note
  resolve_ok user_id row w page h =
      let listing = λ (secret : Str).
        list_authorizations state.snaptrade (draw.asked_at / nanos_per_second) row.snaptrade_user_id
          secret in
      let finish = λ (list : List StAuthorization).
        complete state draw user_id row
          (pick_newest_authorization state.parse_rfc3339 list row.snaptrade_authorization_id) in
      let list_them = λ (secret : Str).
        note (listed_authorizations row.snaptrade_user_id)
        >> (or_recorded (some user_id) (codes "list_authorizations_failed")
              (answer_or (listing secret))
            >>= finish) in
      let (secret, opened, e1, h1) =
        lift_then (outcome_or (decrypt state.cipher state.key row.snaptrade_user_secret_encrypted))
          list_them w page h in
      let w2 = record w { db = noted (listed_authorizations row.snaptrade_user_id) w.db } in
      let (list, listed, e2, h2) =
        or_recorded_then (some user_id) (codes "list_authorizations_failed")
          (answer_or (listing secret)) finish w2 page h1 in
      let chosen =
        pick_newest_authorization state.parse_rfc3339 list row.snaptrade_authorization_id in
      (
        secret,
        list,
        outcome_ok _ secret opened,
        answer_ok _ list listed,
        subst (λ d. Ended draw.row_at row chosen w.db d page) (ap (λ r. r.1.db) (sym (e1 ∙ e2)))
            (from_noted user_id row chosen w2 page h2 w.db refl refl),
      )

  for_claims_ok :
      (q : CallbackQuery) (claims : StateClaims) (w : World BrokerDb) (page : Page)
      → (for_claims state draw q claims w).0 ≡ ok page
      → (row : StoredConnection) × (any_row claims.sub w.db ≡ some row)
        × IsNamed q.user_id row.snaptrade_user_id
        × Resolved row w.db (for_claims state draw q claims w).1.db page
  unfolding fetch_any_for_user
  for_claims_ok q claims w page h =
      let no_row = codes "no_pending_connection" in
      let need = ok_or (app_error bad_request (codes "no pending connection for this user")) in
      let settle =
        λ (row : StoredConnection). λ (_ : Unit {0}). resolve state draw claims.sub row in
      let compare_user = λ (row : StoredConnection).
        or_recorded (some claims.sub) (codes "user_id_mismatch")
          (matches q.user_id row.snaptrade_user_id)
        >>= settle row in
      let use_row = λ (found : Option StoredConnection).
        or_recorded (some claims.sub) no_row (need found) >>= compare_user in
      let (w2, same, e1, h1) = select_then (any_row claims.sub) use_row w page h in
      let (row, is_row, e2, h2) =
        or_recorded_then (some claims.sub) no_row (need (any_row claims.sub w.db)) compare_user w2
          page h1 in
      let (_, matched, e3, h3) =
        or_recorded_then (some claims.sub) (codes "user_id_mismatch")
          (matches q.user_id row.snaptrade_user_id) (settle row) w2 page h2 in
      (
        row,
        some_ok _ (any_row claims.sub w.db) row is_row,
        (matches_iff q.user_id row.snaptrade_user_id).0 (cc matched),
        subst (λ d. Resolved row d (for_claims state draw q claims w).1.db page) same
            (subst (λ d. Resolved row w2.db d page) (ap (λ r. r.1.db) (sym (e1 ∙ e2 ∙ e3)))
              (resolve_ok claims.sub row w2 page h3)),
      )

  -- A callback that is answered by a page has found a token, verified it, and read the newest row
  -- of the token's user, whose SnapTrade user is the one in the query, if any; it has listed the
  -- authorizations with the secret of that row; and the rows are as the choice among them says: as
  -- before with the audit trail as before, or with the chosen authorization on that row, which is then
  -- active and not disabled, and the page of success.
  pub snaptrade_callback_ok :
      (q : CallbackQuery) (w : World BrokerDb) (page : Page)
      → (snaptrade_callback state draw q w).0 ≡ ok page
      → (token : Str) × (claims : StateClaims) × (row : StoredConnection) × (q.state ≡ some token)
        × (verify state.jwt state.state_secret (draw.token_at / nanos_per_second) token ≡ ok claims)
        × (any_row claims.sub w.db ≡ some row)
        × IsNamed q.user_id row.snaptrade_user_id
        × Resolved row w.db (snaptrade_callback state draw q w).1.db page
  unfolding snaptrade_callback fetch_any_for_user
  snaptrade_callback_ok q w page h =
      let check_token = λ (token : Str).
        or_recorded none (codes "bad_state")
          (verify state.jwt state.state_secret (draw.token_at / nanos_per_second) token)
        >>= for_claims state draw q in
      let (token, has_token, e1, h1) =
        or_recorded_then none (codes "missing_state")
          (ok_or (app_error bad_request (codes "missing state token")) q.state) check_token w page
          h in
      let (claims, verified, e2, h2) =
        or_recorded_then none (codes "bad_state")
          (verify state.jwt state.state_secret (draw.token_at / nanos_per_second) token)
          (for_claims state draw q) w page h1 in
      let (row, found, matched, resolved) = for_claims_ok q claims w page h2 in
      (
        token,
        claims,
        row,
        some_ok _ q.state token has_token,
        verified,
        found,
        matched,
        subst (λ d. Resolved row w.db d page) (ap (λ r. r.1.db) (sym (e1 ∙ e2))) resolved,
      )
