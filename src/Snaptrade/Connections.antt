-- ===== src/Snaptrade/Connections.antt =====
-- snaptrade/handlers.rs: what a user sees of a connected broker, its refresh and its removal.
pub mod Removal
pub mod Paging
use mizan_connect.Base.{
  ℕ, ◌/◌, Str, codes, Bool, true, false, Option, none, some, List, [], ◌∷◌, ◌++◌, map, ltb,
  parse_u32, show_u32, if◌then◌else◌,
}
use mizan_connect.Error.{AppError, app_error, bad_request, not_found, Result, ok, err, ok_or}
use mizan_connect.Exec.{Action, World, pure, lift, ◌>>=◌, ◌>>◌}
use mizan_connect.Json.{Value, string, object, Members, member, no_members, string_or_null}
use mizan_connect.Audit.{AuditEvent, new_event, by_user, with_data}
use mizan_connect.RateLimit.{nanos_per_second}
use mizan_connect.Snaptrade.Types.{
  StAuthorization, StBrokerage, StAccount, BrokerageDto, BrokerConnectionDto, BrokerAccountDto,
  ActivitiesQuery,
}
use mizan_connect.Snaptrade.Encryption.{decrypt}
use mizan_connect.Snaptrade.Client.{
  list_authorizations, list_accounts, account_holdings, account_activities, refresh_authorization,
  remove_authorization,
}
use mizan_connect.Snaptrade.Repository.{
  StoredConnection, BrokerDb, Sent, listed_authorizations, listed_accounts, read_holdings,
  read_activities, refreshed, removed, fetch_active_for_user, fetch_by_authorization_id_for_user,
  soft_delete, record_event,
}
use mizan_connect.Snaptrade.Actions.{BrokerState, Draw, outcome_or, ask}

-- ACTIVITIES_DEFAULT_LIMIT, ACTIVITIES_MAX_LIMIT
abbrev pub activities_default_limit : ℕ
activities_default_limit = 25

abbrev pub activities_max_limit : ℕ
activities_max_limit = 100

abbrev brokerage_dto : Option StBrokerage → Option BrokerageDto
brokerage_dto none = none
brokerage_dto (some b) = some (record {
  id = b.id;
  slug = b.slug;
  name = b.name;
  display_name = b.display_name;
  aws_s3_logo_url = b.aws_s3_logo_url;
  aws_s3_square_logo_url = b.aws_s3_square_logo_url;
})

unfoldable pub map_authorization : StAuthorization → BrokerConnectionDto
map_authorization a = record {
  id = a.id;
  name = a.name;
  auth_type = a.auth_type;
  disabled = a.disabled;
  status = if a.disabled then codes "disconnected" else codes "connected";
  brokerage = brokerage_dto a.brokerage;
  created_date = a.created_date;
  updated_date = a.updated_date;
}

-- `is_paper.unwrap_or(false)`
abbrev or_false : Option Bool → Bool
or_false none = false
or_false (some b) = b

unfoldable pub map_account : StAccount → BrokerAccountDto
map_account a = record {
  id = a.id;
  brokerage_authorization = a.brokerage_authorization;
  name = a.name;
  number = a.number;
  institution_name = a.institution_name;
  status = a.status;
  raw_type = a.raw_type;
  balance = a.balance;
  sync_status = a.sync_status;
  is_paper = or_false a.is_paper;
}

-- `unwrap_or(ACTIVITIES_DEFAULT_LIMIT).clamp(1, ACTIVITIES_MAX_LIMIT)`
abbrev clamped : ℕ → ℕ
clamped n = if ltb n 1 then 1 else if ltb activities_max_limit n then activities_max_limit else n

unfoldable pub limit_of : Option ℕ → ℕ
limit_of none = clamped activities_default_limit
limit_of (some n) = clamped n

abbrev or_zero : Option ℕ → ℕ
or_zero none = 0
or_zero (some n) = n

unfoldable pub offset_of : Option Str → ℕ
offset_of none = 0
offset_of (some c) = or_zero (parse_u32 c)

abbrev date_param : Str → Option Str → List (Str × Str)
date_param name none = []
date_param name (some s) = (name, s) ∷ []

unfoldable pub activity_params : ActivitiesQuery → List (Str × Str)
unfolding limit_of offset_of
activity_params q =
    (codes "limit", show_u32 (limit_of q.limit))
      ∷ (codes "offset", show_u32 (offset_of q.cursor))
      ∷ date_param (codes "startDate") q.start_date
    ++ date_param (codes "endDate") q.end_date

abbrev pub no_active : AppError
no_active = app_error not_found (codes "no active broker connection")

abbrev pub missing_connection : AppError
missing_connection = app_error not_found (codes "connection not found")

abbrev pub refresh_event : ℕ → Str → AuditEvent
refresh_event user_id auth_id =
    with_data (object (member (codes "authorization_id") (string auth_id) no_members))
      (by_user user_id (new_event (codes "broker.refresh")))

abbrev pub disconnect_event : ℕ → Option Str → AuditEvent
disconnect_event user_id auth_id =
    with_data (object (member (codes "authorization_id") (string_or_null auth_id) no_members))
      (by_user user_id (new_event (codes "broker.disconnect")))

module _ (state : BrokerState) (draw : Draw) (user_id : ℕ) where
  abbrev seconds : ℕ
  seconds = draw.asked_at / nanos_per_second

  abbrev pub secret_of : StoredConnection → Result Str
  secret_of row = outcome_or (decrypt state.cipher state.key row.snaptrade_user_secret_encrypted)

  abbrev pub connections_of : Option StoredConnection → Action BrokerDb (List BrokerConnectionDto)
  connections_of none = pure []
  connections_of (some row) = do
    secret ← lift (secret_of row)
    auths ←
        ask (listed_authorizations row.snaptrade_user_id)
          (list_authorizations state.snaptrade seconds row.snaptrade_user_id secret)
    pure (map map_authorization auths)

  unfoldable pub list_connections : Action BrokerDb (List BrokerConnectionDto)
  unfolding map_authorization
  list_connections = fetch_active_for_user user_id >>= connections_of

  abbrev pub accounts_of : Option StoredConnection → Action BrokerDb (List BrokerAccountDto)
  accounts_of none = pure []
  accounts_of (some row) = do
    secret ← lift (secret_of row)
    accts ←
        ask (listed_accounts row.snaptrade_user_id)
          (list_accounts state.snaptrade seconds row.snaptrade_user_id secret)
    pure (map map_account accts)

  unfoldable pub list_user_accounts : Action BrokerDb (List BrokerAccountDto)
  unfolding map_account
  list_user_accounts = fetch_active_for_user user_id >>= accounts_of

  unfoldable pub holdings_for : Str → Action BrokerDb Value
  holdings_for account_id = do
    found ← fetch_active_for_user user_id
    row ← lift (ok_or no_active found)
    secret ← lift (secret_of row)
    ask (read_holdings row.snaptrade_user_id account_id)
        (account_holdings state.snaptrade seconds row.snaptrade_user_id secret account_id)

  unfoldable pub activities_for : Str → ActivitiesQuery → Action BrokerDb Value
  unfolding activity_params
  activities_for account_id q = do
    found ← fetch_active_for_user user_id
    row ← lift (ok_or no_active found)
    secret ← lift (secret_of row)
    ask (read_activities row.snaptrade_user_id account_id) (
        account_activities state.snaptrade seconds row.snaptrade_user_id secret account_id
          (activity_params q))

  unfoldable pub refresh_connection : Str → Action BrokerDb Bool
  refresh_connection authorization_id = do
    found ← fetch_by_authorization_id_for_user user_id authorization_id
    row ← lift (ok_or missing_connection found)
    auth_id ← lift (
        ok_or (app_error bad_request (codes "connection is not yet linked"))
          row.snaptrade_authorization_id)
    secret ← lift (secret_of row)
    ask (refreshed row.snaptrade_user_id auth_id)
        (refresh_authorization state.snaptrade seconds row.snaptrade_user_id secret auth_id)
    record_event (refresh_event user_id auth_id)
    pure true

  abbrev pub remove_linked : StoredConnection → Option Str → Action BrokerDb (Unit {0})
  remove_linked row none = pure tt
  remove_linked row (some auth_id) = do
    secret ← lift (secret_of row)
    ask (removed row.snaptrade_user_id auth_id)
        (remove_authorization state.snaptrade seconds row.snaptrade_user_id secret auth_id)

  -- A disabled row is not removed upstream again.
  abbrev pub remove_upstream : StoredConnection → Action BrokerDb (Unit {0})
  remove_upstream row = elim row.disabled [
    | true ↦ pure tt
    | false ↦ remove_linked row row.snaptrade_authorization_id
  ]

  abbrev pub record_removal : StoredConnection → ℕ → Action BrokerDb Bool
  record_removal row rows_affected =
      record_event (disconnect_event user_id row.snaptrade_authorization_id) >> pure true

  abbrev pub remove_row : StoredConnection → Action BrokerDb Bool
  remove_row row = do
    remove_upstream row
    affected ← soft_delete draw.row_at user_id row.id
    record_removal row affected

  abbrev pub remove_found : Option StoredConnection → Action BrokerDb Bool
  remove_found found = lift (ok_or missing_connection found) >>= remove_row

  unfoldable pub delete_connection : Str → Action BrokerDb Bool
  delete_connection authorization_id =
      fetch_by_authorization_id_for_user user_id authorization_id >>= remove_found
