-- ===== src/Snaptrade/Actions.antt =====
-- What the handlers of snaptrade/handlers.rs share: the state of the server that they read, the
-- requests to SnapTrade, and the audit events that are written without waiting.
pub mod Laws
use mizan_connect.Base.{ℕ, Str, codes, Option, none, some, List, [], ◌∷◌, ◌++◌}
use mizan_connect.Error.{AppError, Result, ok, err, ok_or}
use mizan_connect.Exec.{Action, World, pure, lift, raise, ◌>>=◌, ◌>>◌}
use mizan_connect.Json.{Value, string, object, Members, member, no_members}
use mizan_connect.Audit.{AuditEvent, new_event, by_user, with_data}
use mizan_connect.Snaptrade.Encryption.{EncryptionError, Outcome, done, failed, Cipher}
use mizan_connect.Snaptrade.Errors.{Answer, integration_error, answer_or}
use mizan_connect.Snaptrade.Client.{SnaptradeClient}
use mizan_connect.Snaptrade.StateToken.{Jwt}
use mizan_connect.Snaptrade.Repository.{BrokerDb, Sent}

-- The part of `AppState` that the handlers read. `redirect_with` is `url::Url::parse` of
-- SNAPTRADE_REDIRECT_URI with the query pair `state` appended, `parse_rfc3339` the `time` crate's
-- reading of a timestamp, and `uuid_text` the text of a UUID.
pub record BrokerState : Type 0 where
  pub snaptrade : SnaptradeClient
  pub cipher : Cipher
  pub key : Str
  pub jwt : Jwt
  pub state_secret : Str
  pub redirect_with : Str → Option Str
  pub parse_rfc3339 : Str → Option ℕ
  pub uuid_text : ℕ → Str

-- What one call of a handler draws: the instants it reads from the clocks, in the order in which it
-- reads them, and its random values.
pub record Draw : Type 0 where
  pub checked_at : ℕ
  pub asked_at : ℕ
  pub row_at : ℕ
  pub token_at : ℕ
  pub answered_at : ℕ
  pub row_id : ℕ
  pub token_nonce : ℕ
  pub cipher_nonce : Str

-- `impl From<EncryptionError> for AppError`, and the `map_err` of the portal, which says the same.
unfoldable pub outcome_or : {A : Type 0} → Outcome A → Result A
outcome_or (done a) = ok a
outcome_or (failed e) = err integration_error

-- The request leaves before its answer is known.
unfoldable pub note : Sent → Action BrokerDb (Unit {0})
note s w = (ok tt, record w { db = record w.db { sent = w.db.sent ++ s ∷ [] } })

unfoldable pub ask : {A : Type 0} → Sent → Answer A → Action BrokerDb A
unfolding note answer_or
ask s answer = do note s; lift (answer_or answer)

abbrev for_user : Option ℕ → AuditEvent → AuditEvent
for_user none e = e
for_user (some id) e = by_user id e

-- The event of `record_failure_locked`; every caller leaves the SnapTrade status out.
abbrev pub failure_event : Option ℕ → Str → AuditEvent
failure_event user_id error_code =
    with_data (object (member (codes "error_code") (string error_code) no_members))
      (for_user user_id (new_event (codes "broker.connect.failed")))

-- `record_failure_locked`: the task that writes the event is spawned and not awaited.
unfoldable pub record_failure : Option ℕ → Str → Action BrokerDb (Unit {0})
record_failure user_id error_code w = (
  ok tt,
  record w { db = record w.db { spawned = w.db.spawned ++ failure_event user_id error_code ∷ [] } },
)

-- `.inspect_err(…)?` and `.ok_or_else(…)?` with the failure recorded.
unfoldable pub or_recorded : {A : Type 0} → Option ℕ → Str → Result A → Action BrokerDb A
unfolding record_failure
or_recorded user_id error_code (ok a) = pure a
or_recorded user_id error_code (err e) = record_failure user_id error_code >> raise e
