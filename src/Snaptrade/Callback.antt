-- ===== src/Snaptrade/Callback.antt =====
-- snaptrade/handlers.rs: the public callback to which SnapTrade's portal redirects. The two HTML
-- pages are constructors of `Page`; both are answered with the status 200.
pub mod Newest
pub mod Effect
pub mod Links
use mizan_connect.Base.{
  ℕ, suc, ◌/◌, Str, codes, str_eq, Bool, true, false, not, ◌&&◌, ◌||◌, Option, none, some, List, [],
  ◌∷◌, leb, ltb, ◌==◌, if◌then◌else◌,
}
use mizan_connect.Error.{AppError, app_error, bad_request, Result, ok, err, ok_or}
use mizan_connect.Exec.{Action, World, pure, lift, ◌>>=◌, ◌>>◌}
use mizan_connect.Json.{Value, string, object, Members, member, no_members, string_or_null}
use mizan_connect.Audit.{AuditEvent, new_event, by_user, with_data}
use mizan_connect.RateLimit.{nanos_per_second}
use mizan_connect.Snaptrade.Types.{StAuthorization, StBrokerage}
use mizan_connect.Snaptrade.Encryption.{decrypt}
use mizan_connect.Snaptrade.Errors.{answer_or}
use mizan_connect.Snaptrade.Client.{list_authorizations}
use mizan_connect.Snaptrade.StateToken.{StateClaims, verify}
use mizan_connect.Snaptrade.Repository.{
  StoredConnection, BrokerDb, Sent, listed_authorizations, fetch_any_for_user, mark_completed,
  record_event,
}
use mizan_connect.Snaptrade.Actions.{
  BrokerState, Draw, outcome_or, note, or_recorded, record_failure,
}

pub record CallbackQuery : Type 0 where
  pub state : Option Str
  pub user_id : Option Str

pub data Page : Type 0 where
  success_html connection_failed_html : Page

-- `Iterator::enumerate`
abbrev pub enumerate_from {ℓ} : {A : Type ℓ} → ℕ → List A → List (ℕ × A)
enumerate_from i [] = []
enumerate_from i (a ∷ as_) = (i, a) ∷ enumerate_from (suc i) as_

-- The order of `Option<OffsetDateTime>`, and of its pairs with a `usize`.
abbrev pub time_lt : Option ℕ → Option ℕ → Bool
time_lt a none = false
time_lt none (some t) = true
time_lt (some s) (some t) = ltb s t

abbrev time_eq : Option ℕ → Option ℕ → Bool
time_eq none none = true
time_eq none (some t) = false
time_eq (some s) none = false
time_eq (some s) (some t) = s == t

abbrev pub key_le : Option ℕ × ℕ → Option ℕ × ℕ → Bool
key_le a b = time_lt a.0 b.0 || time_eq a.0 b.0 && leb a.1 b.1

module _ (parse_rfc3339 : Str → Option ℕ) where
  -- `a.created_date.as_deref().and_then(…)`
  abbrev pub time_of : Option Str → Option ℕ
  time_of none = none
  time_of (some s) = parse_rfc3339 s

  abbrev pub key_of : ℕ × StAuthorization → Option ℕ × ℕ
  key_of p = (time_of p.1.created_date, p.0)

  -- `Iterator::max_by_key`: the last one of the greatest.
  abbrev pub greater :
      ℕ × StAuthorization → Option (ℕ × StAuthorization) → Option (ℕ × StAuthorization)
  greater p none = some p
  greater p (some q) = if key_le (key_of p) (key_of q) then some q else some p

  abbrev pub max_by_key : List (ℕ × StAuthorization) → Option (ℕ × StAuthorization)
  max_by_key [] = none
  max_by_key (p ∷ ps) = greater p (max_by_key ps)

  abbrev pub is_other : Option Str → StAuthorization → Bool
  is_other none a = true
  is_other (some e) a = not (str_eq a.id e)

  abbrev pub others : Option Str → List (ℕ × StAuthorization) → List (ℕ × StAuthorization)
  others existing_id [] = []
  others existing_id (p ∷ ps) =
      let rest = others existing_id ps in if is_other existing_id p.1 then p ∷ rest else rest

  abbrev pub second : Option (ℕ × StAuthorization) → Option StAuthorization
  second none = none
  second (some p) = some p.1

  unfoldable pub pick_newest_authorization :
      List StAuthorization → Option Str → Option StAuthorization
  pick_newest_authorization authorizations existing_id =
      second (max_by_key (others existing_id (enumerate_from 0 authorizations)))

abbrev pub slug_of : Option StBrokerage → Option Str
slug_of none = none
slug_of (some b) = some b.slug

-- `b.display_name.as_deref().or(Some(b.name.as_str()))`
abbrev name_or : Option Str → Str → Option Str
name_or none name = some name
name_or (some s) name = some s

abbrev pub institution_of : Option StBrokerage → Option Str
institution_of none = none
institution_of (some b) = name_or b.display_name b.name

abbrev pub completed_event : ℕ → StAuthorization → AuditEvent
completed_event user_id auth =
    with_data
      (object (
        member (codes "authorization_id") (string auth.id)
          (member (codes "broker_slug") (string_or_null (slug_of auth.brokerage)) no_members)))
      (by_user user_id (new_event (codes "broker.connect.completed")))

abbrev pub matches : Option Str → Str → Result (Unit {0})
matches none snaptrade_user_id = ok tt
matches (some returned) snaptrade_user_id =
    if str_eq returned snaptrade_user_id
    then ok tt
    else err (app_error bad_request (codes "snaptrade userId mismatch"))

abbrev is_some : Option Str → Bool
is_some none = false
is_some (some s) = true

-- The page when there is no new authorization.
abbrev pub none_new : ℕ → StoredConnection → Action BrokerDb Page
none_new user_id row = elim (is_some row.snaptrade_authorization_id) [
  | true ↦ pure success_html
  | false ↦
      record_failure (some user_id) (codes "no_new_authorization") >> pure connection_failed_html
]

module _ (state : BrokerState) (draw : Draw) where
  abbrev pub complete : ℕ → StoredConnection → Option StAuthorization → Action BrokerDb Page
  complete user_id row none = none_new user_id row
  complete user_id row (some auth) = do
    mark_completed draw.row_at row.id auth.id (slug_of auth.brokerage)
        (institution_of auth.brokerage)
    record_event (completed_event user_id auth)
    pure success_html

  abbrev pub resolve : ℕ → StoredConnection → Action BrokerDb Page
  resolve user_id row = do
    secret ← lift (outcome_or (decrypt state.cipher state.key row.snaptrade_user_secret_encrypted))
    note (listed_authorizations row.snaptrade_user_id)
    authorizations ← or_recorded (some user_id) (codes "list_authorizations_failed") (
        answer_or (
          list_authorizations state.snaptrade (draw.asked_at / nanos_per_second)
            row.snaptrade_user_id secret))
    complete user_id row (
        pick_newest_authorization state.parse_rfc3339 authorizations row.snaptrade_authorization_id)

  abbrev pub for_claims : CallbackQuery → StateClaims → Action BrokerDb Page
  for_claims q claims = do
    found ← fetch_any_for_user claims.sub
    row ←
        or_recorded (some claims.sub) (codes "no_pending_connection")
          (ok_or (app_error bad_request (codes "no pending connection for this user")) found)
    or_recorded (some claims.sub) (codes "user_id_mismatch")
        (matches q.user_id row.snaptrade_user_id)
    resolve claims.sub row

  unfoldable pub snaptrade_callback : CallbackQuery → Action BrokerDb Page
  snaptrade_callback q = do
    state_jwt ←
        or_recorded none (codes "missing_state")
          (ok_or (app_error bad_request (codes "missing state token")) q.state)
    claims ←
        or_recorded none (codes "bad_state")
          (verify state.jwt state.state_secret (draw.token_at / nanos_per_second) state_jwt)
    for_claims q claims
