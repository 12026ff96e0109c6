-- ===== src/Audit.antt =====
-- audit/repository.rs: the audit trail. The ids are those of the table's sequence.
use mizan_connect.Base.{ℕ, ◌+◌, Str, Option, none, some, List, ◌∷◌, [], ◌++◌}
use mizan_connect.Json.{Value}

pub record AuditEvent : Type 0 where
  pub user_id : Option ℕ
  pub event_type : Str
  pub event_data : Option Value
  pub ip_address : Option Str
  pub user_agent : Option Str

-- `AuditEvent::new`
abbrev pub new_event : Str → AuditEvent
new_event event_type = record {
  user_id = none;
  event_type = event_type;
  event_data = none;
  ip_address = none;
  user_agent = none;
}

-- `AuditEvent::user`
abbrev pub by_user : ℕ → AuditEvent → AuditEvent
by_user id e = record e { user_id = some id }

-- `AuditEvent::data`
abbrev pub with_data : Value → AuditEvent → AuditEvent
with_data value e = record e { event_data = some value }

pub record AuditLog : Type 0 where
  pub next_id : ℕ
  pub rows : List (ℕ × AuditEvent)

-- The `INSERT` of `record_event`.
abbrev pub insert_event : AuditEvent → AuditLog → AuditLog
insert_event e log = record { next_id = log.next_id + 1; rows = log.rows ++ (log.next_id, e) ∷ [] }
