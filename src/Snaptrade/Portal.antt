-- ===== src/Snaptrade/Portal.antt =====
-- snaptrade/handlers.rs: `POST /login-portal`, which opens SnapTrade's portal for a user.
pub mod Registered
pub mod Opened
pub mod Once
use mizan_connect.Base.{ℕ, ◌+◌, ◌*◌, ◌/◌, Str, codes, Option, none, some}
use mizan_connect.Error.{AppError, app_error, internal, too_many_requests, Result, ok, err, ok_or}
use mizan_connect.Exec.{Action, World, pure, lift, ◌>>=◌, ◌>>◌}
use mizan_connect.Json.{Value, string, object, Members, member, no_members}
use mizan_connect.Audit.{AuditEvent, new_event, by_user, with_data}
use mizan_connect.RateLimit.{Verdict, allowed, limited, LoginPortalLimiter, check, nanos_per_second}
use mizan_connect.Snaptrade.Types.{LoginPortalResponse, StRegisterUserResponse, StLoginResponse}
use mizan_connect.Snaptrade.Encryption.{encrypt, decrypt}
use mizan_connect.Snaptrade.Client.{register_user, login_user}
use mizan_connect.Snaptrade.StateToken.{issue}
use mizan_connect.Snaptrade.Repository.{
  StoredConnection, BrokerDb, Sent, registered, logged_in, fetch_any_for_user, insert_pending,
  record_event,
}
use mizan_connect.Snaptrade.Actions.{BrokerState, Draw, outcome_or, ask}

-- PORTAL_TTL_MINUTES
abbrev pub portal_ttl_minutes : ℕ
portal_ttl_minutes = 5

abbrev pub verdict_or : Verdict → Result (Unit {0})
verdict_or allowed = ok tt
verdict_or (limited retry_after) =
    err (app_error too_many_requests (codes "too many login-portal requests; try again later"))

unfoldable pub limit : ℕ → ℕ → Action BrokerDb (Unit {0})
unfolding check
limit now user_id w =
    let (verdict, map) = check now user_id w.db.limiter in
    (verdict_or verdict, record w { db = record w.db { limiter = map } })

abbrev pub initiated_event : ℕ → Str → AuditEvent
initiated_event user_id snaptrade_user_id =
    with_data (object (member (codes "snaptrade_user_id") (string snaptrade_user_id) no_members))
      (by_user user_id (new_event (codes "broker.connect.initiated")))

abbrev pub misconfigured : AppError
misconfigured = app_error internal (codes "broker integration misconfigured")

module _ (state : BrokerState) (draw : Draw) (user_id : ℕ) where
  abbrev pub asked_seconds : ℕ
  asked_seconds = draw.asked_at / nanos_per_second

  -- A pair of a SnapTrade user and its secret, which is stored before it is used.
  unfoldable pub register : Action BrokerDb (Str × Str)
  register = do
    resp ←
        ask (registered (state.uuid_text user_id))
          (register_user state.snaptrade asked_seconds (state.uuid_text user_id))
    record_event (initiated_event user_id resp.user_id)
    blob ← lift (outcome_or (encrypt state.cipher state.key draw.cipher_nonce resp.user_secret))
    insert_pending draw.row_id draw.row_at user_id resp.user_id blob
    pure (resp.user_id, resp.user_secret)

  abbrev pub reuse : StoredConnection → Action BrokerDb (Str × Str)
  reuse row = do
    secret ← lift (outcome_or (decrypt state.cipher state.key row.snaptrade_user_secret_encrypted))
    pure (row.snaptrade_user_id, secret)

  unfoldable pub pair_for : Option StoredConnection → Action BrokerDb (Str × Str)
  unfolding register
  pair_for (some row) = reuse row
  pair_for none = register

  abbrev pub redirect_or : Str → Result Str
  redirect_or state_jwt = ok_or misconfigured (state.redirect_with state_jwt)

  abbrev pub login_response : StLoginResponse → LoginPortalResponse
  login_response login = record {
    url = login.redirect_uri;
    expires_at = draw.answered_at + portal_ttl_minutes * 60 * nanos_per_second;
  }

  abbrev pub open_portal : Str × Str → Action BrokerDb LoginPortalResponse
  open_portal pair = do
    state_jwt ← lift (
        issue state.jwt state.state_secret (draw.token_at / nanos_per_second) draw.token_nonce
          user_id)
    redirect ← lift (redirect_or state_jwt)
    login ←
        ask (logged_in pair.0 redirect)
          (login_user state.snaptrade asked_seconds pair.0 pair.1 redirect)
    pure (login_response login)

  abbrev pub open_for : Option StoredConnection → Action BrokerDb LoginPortalResponse
  open_for stored = pair_for stored >>= open_portal

  unfoldable pub login_portal : Action BrokerDb LoginPortalResponse
  unfolding pair_for limit
  login_portal = do
    limit draw.checked_at user_id
    stored ← fetch_any_for_user user_id
    open_for stored
