-- ===== src/Snaptrade/Repository.antt =====
-- snaptrade/repository.rs: the statements on `broker_connections`, with the table's constraints in
-- migrations 0001 and 0002. `connection_type` is `snaptrade` in every row that the program writes
-- and is left out, as are the columns that nothing reads or writes. A UUID that the database draws
-- and the value of NOW() are arguments. The database also holds the audit trail.
pub mod Unique
use mizan_connect.Base.{
  ℕ, Str, str_eq, Bool, true, false, not, ◌&&◌, ◌||◌, Option, none, some, List, [], ◌∷◌, ◌++◌, ltb,
  ◌==◌, exists, first, keep, update_where, length, if◌then◌else◌,
}
use mizan_connect.Error.{Result, ok, err, unique_violation, from_sqlx}
use mizan_connect.Exec.{Action, World, statement, select}
use mizan_connect.Audit.{AuditEvent, AuditLog, insert_event}
use mizan_connect.RateLimit.{LoginPortalLimiter}

-- A row, of which a `StoredConnection` is the part without the two dates.
pub record StoredConnection : Type 0 where
  pub id : ℕ
  pub user_id : ℕ
  pub snaptrade_user_id : Str
  pub snaptrade_user_secret_encrypted : Str
  pub snaptrade_authorization_id : Option Str
  pub broker_slug : Option Str
  pub institution_name : Option Str
  pub is_active : Bool
  pub disabled : Bool
  pub created_at : ℕ
  pub updated_at : ℕ

-- A request that SnapTrade has been sent.
pub data Sent : Type 0 where
  registered : Str → Sent
  logged_in : Str → Str → Sent
  listed_authorizations listed_accounts : Str → Sent
  read_holdings read_activities : Str → Str → Sent
  refreshed removed : Str → Str → Sent

-- The tables, and what the handlers share beside them: the limiter of the process, the requests
-- sent to SnapTrade, and the audit events whose writing was started and is not awaited.
pub record BrokerDb : Type 0 where
  pub broker_connections : List StoredConnection
  pub audit_log : AuditLog
  pub sent : List Sent
  pub spawned : List AuditEvent
  pub limiter : LoginPortalLimiter

-- Two rows that the primary key or a unique index forbids: `uq_broker_conn_user_snaptrade` on the
-- user of an active row, `uq_broker_conn_snaptrade_uid` on the SnapTrade user.
unfoldable pub row_clash : StoredConnection → StoredConnection → Bool
row_clash a b =
    a.id == b.id
    || a.is_active && b.is_active && a.user_id == b.user_id
    || str_eq a.snaptrade_user_id b.snaptrade_user_id

unfoldable pub rows_unique : List StoredConnection → Bool
rows_unique [] = true
rows_unique (a ∷ rows) = not (exists (row_clash a) rows) && rows_unique rows

abbrev pub store_rows {ℓ} :
    {A : Type ℓ} → A → List StoredConnection → BrokerDb → Result A × BrokerDb
store_rows a rows d =
    if rows_unique rows
    then (ok a, record d { broker_connections = rows })
    else (err (from_sqlx unique_violation), d)

abbrev pub pending_row : ℕ → ℕ → ℕ → Str → Str → StoredConnection
pending_row id now user_id snaptrade_user_id snaptrade_user_secret_encrypted = record {
  id = id;
  user_id = user_id;
  snaptrade_user_id = snaptrade_user_id;
  snaptrade_user_secret_encrypted = snaptrade_user_secret_encrypted;
  snaptrade_authorization_id = none;
  broker_slug = none;
  institution_name = none;
  is_active = false;
  disabled = false;
  created_at = now;
  updated_at = now;
}

abbrev pub insert_pending_in : StoredConnection → BrokerDb → Result ℕ × BrokerDb
insert_pending_in row d = store_rows row.id (d.broker_connections ++ row ∷ []) d

unfoldable pub insert_pending : ℕ → ℕ → ℕ → Str → Str → Action BrokerDb ℕ
insert_pending id now user_id snaptrade_user_id snaptrade_user_secret_encrypted = statement (
    insert_pending_in
      (pending_row id now user_id snaptrade_user_id snaptrade_user_secret_encrypted))

abbrev pub active_of : ℕ → StoredConnection → Bool
active_of user_id a = a.user_id == user_id && a.is_active

unfoldable pub fetch_active_for_user : ℕ → Action BrokerDb (Option StoredConnection)
fetch_active_for_user user_id = select (λ d. first (active_of user_id) d.broker_connections)

-- `ORDER BY created_at DESC LIMIT 1`
unfoldable pub newest : List StoredConnection → Option StoredConnection
newest [] = none
newest (a ∷ rows) = elim (newest rows) [
  | none ↦ some a
  | some b ↦ if ltb a.created_at b.created_at then some b else some a
]

abbrev pub owned_by : ℕ → StoredConnection → Bool
owned_by user_id a = a.user_id == user_id

abbrev pub any_row : ℕ → BrokerDb → Option StoredConnection
any_row user_id d = newest (keep (owned_by user_id) d.broker_connections)

unfoldable pub fetch_any_for_user : ℕ → Action BrokerDb (Option StoredConnection)
unfolding newest
fetch_any_for_user user_id = select (any_row user_id)

unfoldable pub fetch_by_snaptrade_user : Str → Action BrokerDb (Option StoredConnection)
fetch_by_snaptrade_user snaptrade_user_id =
    select (λ d. first (λ a. str_eq a.snaptrade_user_id snaptrade_user_id) d.broker_connections)

-- `COALESCE($n, column)`
abbrev pub coalesce : Option Str → Option Str → Option Str
coalesce none column = column
coalesce (some s) column = some s

abbrev pub completed_row : ℕ → Str → Option Str → Option Str → StoredConnection → StoredConnection
completed_row now snaptrade_authorization_id broker_slug institution_name a = record a {
  snaptrade_authorization_id = some snaptrade_authorization_id;
  broker_slug = coalesce broker_slug a.broker_slug;
  institution_name = coalesce institution_name a.institution_name;
  is_active = true;
  disabled = false;
  updated_at = now;
}

abbrev pub has_id : ℕ → StoredConnection → Bool
has_id id a = a.id == id

abbrev pub mark_completed_in :
    ℕ → ℕ → Str → Option Str → Option Str → BrokerDb → Result (Unit {0}) × BrokerDb
mark_completed_in now connection_id snaptrade_authorization_id broker_slug institution_name d =
    store_rows tt
      (update_where (has_id connection_id)
        (completed_row now snaptrade_authorization_id broker_slug institution_name)
        d.broker_connections)
      d

unfoldable pub mark_completed : ℕ → ℕ → Str → Option Str → Option Str → Action BrokerDb (Unit {0})
mark_completed now connection_id snaptrade_authorization_id broker_slug institution_name =
    statement
      (mark_completed_in now connection_id snaptrade_authorization_id broker_slug institution_name)

abbrev pub deleted_row : ℕ → StoredConnection → StoredConnection
deleted_row now a = record a { is_active = false; disabled = true; updated_at = now }

abbrev pub row_of : ℕ → ℕ → StoredConnection → Bool
row_of user_id connection_id a = a.id == connection_id && a.user_id == user_id

-- A row that is made inactive clashes with no more rows than before, so no index can object. The
-- value is the number of rows.
abbrev pub soft_delete_in : ℕ → ℕ → ℕ → BrokerDb → Result ℕ × BrokerDb
soft_delete_in now user_id connection_id d = (
  ok (length (keep (row_of user_id connection_id) d.broker_connections)),
  record d {
    broker_connections =
        update_where (row_of user_id connection_id) (deleted_row now) d.broker_connections;
  },
)

unfoldable pub soft_delete : ℕ → ℕ → ℕ → Action BrokerDb ℕ
soft_delete now user_id connection_id = statement (soft_delete_in now user_id connection_id)

unfoldable pub fetch_by_id_for_user : ℕ → ℕ → Action BrokerDb (Option StoredConnection)
fetch_by_id_for_user user_id connection_id =
    select (λ d. first (row_of user_id connection_id) d.broker_connections)

abbrev pub same_authorization : Option Str → Str → Bool
same_authorization none s = false
same_authorization (some t) s = str_eq t s

abbrev pub linked_to : ℕ → Str → StoredConnection → Bool
linked_to user_id authorization_id a =
    same_authorization a.snaptrade_authorization_id authorization_id && a.user_id == user_id

unfoldable pub fetch_by_authorization_id_for_user :
    ℕ → Str → Action BrokerDb (Option StoredConnection)
fetch_by_authorization_id_for_user user_id authorization_id =
    select (λ d. first (linked_to user_id authorization_id) d.broker_connections)

-- `audit::record_event`, whose failure the handlers ignore: `let _ = … .await`.
abbrev ignored : Result (Unit {0}) × World BrokerDb → Result (Unit {0}) × World BrokerDb
ignored r = (ok tt, r.1)

abbrev pub record_event_in : AuditEvent → BrokerDb → Result (Unit {0}) × BrokerDb
record_event_in e d = (ok tt, record d { audit_log = insert_event e d.audit_log })

unfoldable pub record_event : AuditEvent → Action BrokerDb (Unit {0})
record_event e w = ignored (statement (record_event_in e) w)
