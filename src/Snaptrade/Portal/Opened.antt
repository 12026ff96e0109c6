-- ===== src/Snaptrade/Portal/Opened.antt =====
-- snaptrade/handlers.rs: what a portal that is opened with a stored pair does.
use mizan_connect.Base.{ℕ, ◌/◌, Str, ◌≡◌, sym, ap, ◌∙◌, subst, [], ◌∷◌, ◌++◌, some}
use mizan_connect.Error.{ok}
use mizan_connect.Exec.{World, pure, lift, ◌>>=◌}
use mizan_connect.Exec.Laws.{lift_then, select_then, bind_ok, bind_runs}
use mizan_connect.Snaptrade.Encryption.{done, decrypt}
use mizan_connect.Snaptrade.Errors.{answered, answer_or}
use mizan_connect.Snaptrade.Repository.{StoredConnection, BrokerDb, any_row}
use mizan_connect.Snaptrade.Actions.{BrokerState, Draw, outcome_or, ask, note}
use mizan_connect.Snaptrade.Actions.Laws.{ask_then}
use mizan_connect.Snaptrade.Portal.{asked_seconds, reuse}
use mizan_connect.Snaptrade.Repository.{fetch_any_for_user, logged_in}
use mizan_connect.Snaptrade.Types.{LoginPortalResponse, StLoginResponse}
use mizan_connect.Snaptrade.Client.{login_user}
use mizan_connect.Snaptrade.StateToken.{issue}
use mizan_connect.Snaptrade.Actions.Laws.{some_ok}
use mizan_connect.RateLimit.{nanos_per_second}
use mizan_connect.Snaptrade.Portal.{
  limit, pair_for, open_for, open_portal, login_portal, login_response, redirect_or, misconfigured,
}

module _ (state : BrokerState) (draw : Draw) (user_id : ℕ) where
  -- What a portal that was opened with a pair shows for it.
  abbrev pub Opened : Str × Str → BrokerDb → BrokerDb → LoginPortalResponse → Type 0
  Opened pair d d' resp =
      (token : Str) × (redirect : Str) × (login : StLoginResponse) × (issue state.jwt
          state.state_secret (draw.token_at / nanos_per_second) draw.token_nonce user_id
        ≡ ok token)
      × (state.redirect_with token ≡ some redirect)
      × (login_user state.snaptrade (asked_seconds state draw user_id) pair.0 pair.1 redirect
          ≡ answered login)
      × (resp.url ≡ login.redirect_uri)
      × (d'.broker_connections ≡ d.broker_connections)
      × (d'.sent ≡ d.sent ++ logged_in pair.0 redirect ∷ [])

  pub open_ok :
      (pair : Str × Str) (w : World BrokerDb) (resp : LoginPortalResponse)
      → (open_portal state draw user_id pair w).0 ≡ ok resp
      → Opened pair w.db (open_portal state draw user_id pair w).1.db resp
  unfolding ask note answer_or
  open_ok pair w resp h =
      let seconds = asked_seconds state draw user_id in
      let show = λ (login : StLoginResponse).
        pure {D = BrokerDb} (login_response state draw user_id login) in
      let log_in = λ (redirect : Str).
        ask (logged_in pair.0 redirect) (login_user state.snaptrade seconds pair.0 pair.1 redirect)
        >>= show in
      let go_on = λ (token : Str). lift (redirect_or state draw user_id token) >>= log_in in
      let token_now =
        issue state.jwt state.state_secret (draw.token_at / nanos_per_second) draw.token_nonce
          user_id in
      let (token, issued, e1, h1) = lift_then token_now go_on w resp h in
      let (redirect, parsed, e2, h2) =
        lift_then (redirect_or state draw user_id token) log_in w resp h1 in
      let (login, entered, e3, h3) =
        ask_then (logged_in pair.0 redirect)
          (login_user state.snaptrade seconds pair.0 pair.1 redirect) show w resp h2 in
      let shown : login_response state draw user_id login ≡ resp = cc h3 in
      let run = e1 ∙ e2 ∙ e3 in
      (
        token,
        redirect,
        login,
        issued,
        some_ok misconfigured (state.redirect_with token) redirect parsed,
        entered,
        ap (λ (r : LoginPortalResponse). r.url) (sym shown),
        ap (λ r. r.1.db.broker_connections) run,
        ap (λ r. r.1.db.sent) run,
      )

  reuse_runs :
      (row : StoredConnection) (secret : Str) (w : World BrokerDb)
      → decrypt state.cipher state.key row.snaptrade_user_secret_encrypted ≡ done secret
      → reuse state draw user_id row w ≡ (ok (row.snaptrade_user_id, secret), w)
  unfolding outcome_or
  reuse_runs row secret w opened =
      ap (λ o. (lift (outcome_or o) >>= λ s. pure {D = BrokerDb} (row.snaptrade_user_id, s)) w)
        opened

  -- The limiter and the query in front change neither the rows nor the log of requests.
  from_limited :
      (pair : Str × Str) (w w2 : World BrokerDb) (d' : BrokerDb) (resp : LoginPortalResponse)
      → w2.db ≡ (limit draw.checked_at user_id w).1.db
      → Opened pair w2.db d' resp
      → Opened pair w.db d' resp
  unfolding limit
  from_limited pair w w2 d' resp same
        (token, redirect, login, issued, parsed, entered, url, rows, sent) =
      (
        token,
        redirect,
        login,
        issued,
        parsed,
        entered,
        url,
        rows ∙ ap (λ d. d.broker_connections) same,
        sent ∙ ap (λ d. d.sent ++ logged_in pair.0 redirect ∷ []) same,
      )

  -- A portal for a user whose row is stored: no registration, and the row's own pair.
  pub stored_ok :
      (row : StoredConnection) (secret : Str) (w : World BrokerDb) (resp : LoginPortalResponse)
      → any_row user_id w.db ≡ some row
      → decrypt state.cipher state.key row.snaptrade_user_secret_encrypted ≡ done secret
      → (login_portal state draw user_id w).0 ≡ ok resp
      → Opened (row.snaptrade_user_id, secret) w.db (login_portal state draw user_id w).1.db resp
  unfolding login_portal fetch_any_for_user
  stored_ok row secret w resp is_row opened h =
      let read_row = λ (_ : Unit {0}). fetch_any_for_user user_id >>= open_for state draw user_id in
      let (_, _, e1) = bind_ok (limit draw.checked_at user_id) read_row w resp h in
      let w1 = (limit draw.checked_at user_id w).1 in
      let (w2, same, e2, h2) =
        select_then (any_row user_id) (open_for state draw user_id) w1 resp
          (ap (λ r. r.0) (sym e1) ∙ h) in
      let found : any_row user_id w1.db ≡ some row = unfold limit in is_row in
      let pair : Str × Str = (row.snaptrade_user_id, secret) in
      let e3 : open_for state draw user_id (any_row user_id w1.db) w2
          ≡ open_portal state draw user_id pair w2 =
        ap (λ o. open_for state draw user_id o w2) found
        ∙ (unfold pair_for in
            bind_runs (reuse state draw user_id row) (open_portal state draw user_id) w2 w2 pair
              (reuse_runs row secret w2 opened)) in
      let run = e1 ∙ e2 ∙ e3 in
      let h3 = ap (λ r. r.0) (sym e3) ∙ h2 in
      subst (λ d. Opened pair w.db d resp) (ap (λ r. r.1.db) (sym run))
        (from_limited pair w w2 (open_portal state draw user_id pair w2).1.db resp same
          (open_ok pair w2 resp h3))
