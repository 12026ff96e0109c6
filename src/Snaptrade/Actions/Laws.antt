-- ===== src/Snaptrade/Actions/Laws.antt =====
-- The steps that the handlers of snaptrade/handlers.rs are made of: what a successful one has done.
use mizan_connect.Base.{
  ℕ, Str, ◌≡◌, ◌⊎◌, inl, inr, refl, ap, List, [], ◌∷◌, ◌++◌, Option, none, some,
}
use mizan_connect.Error.{AppError, SqlError, Result, ok, err, ok_or}
use mizan_connect.Exec.{Action, World, statement, ◌>>=◌}
use mizan_connect.Audit.{AuditEvent, insert_event}
use mizan_connect.Snaptrade.Encryption.{Outcome, done, failed}
use mizan_connect.Snaptrade.Errors.{Answer, answered, refused, answer_or}
use mizan_connect.Snaptrade.Repository.{BrokerDb, Sent, record_event}
use mizan_connect.Snaptrade.Actions.{outcome_or, note, ask, record_failure, or_recorded}

pub outcome_ok : {A : Type 0} (o : Outcome A) (a : A) → outcome_or o ≡ ok a → o ≡ done a
unfolding outcome_or
outcome_ok (done b) a h = ap done (cc h)
outcome_ok (failed e) a h = absurd (cc)

pub answer_ok : {A : Type 0} (r : Answer A) (a : A) → answer_or r ≡ ok a → r ≡ answered a
unfolding answer_or
answer_ok (answered b) a h = ap answered (cc h)
answer_ok (refused e) a h = absurd (cc)

pub some_ok : {A : Type 0} (e : AppError) (o : Option A) (a : A) → ok_or e o ≡ ok a → o ≡ some a
some_ok e none a h = absurd (cc)
some_ok e (some b) a h = ap some (cc h)

-- The tables behind a request: only the log of requests has grown.
abbrev pub noted : Sent → BrokerDb → BrokerDb
noted s d = record d { sent = d.sent ++ s ∷ [] }

module _ {A B : Type 0} where
  -- A request that was answered goes on with the answer.
  pub ask_then :
      (s : Sent) (answer : Answer A) (f : A → Action BrokerDb B) (w : World BrokerDb) (b : B)
      → ((ask s answer >>= f) w).0 ≡ ok b
      → (a : A) × (answer ≡ answered a)
        × ((ask s answer >>= f) w ≡ f a (record w { db = noted s w.db }))
        × ((f a (record w { db = noted s w.db })).0 ≡ ok b)
  unfolding ask note answer_or
  ask_then s (answered a) f w b h = (a, refl, refl, h)
  ask_then s (refused e) f w b h = absurd (cc)

  -- A step whose failure is recorded goes on where it has succeeded.
  pub or_recorded_then :
      (user_id : Option ℕ) (code : Str) (r : Result A) (f : A → Action BrokerDb B)
      (w : World BrokerDb) (b : B)
      → ((or_recorded user_id code r >>= f) w).0 ≡ ok b
      → (a : A) × (r ≡ ok a) × ((or_recorded user_id code r >>= f) w ≡ f a w) × ((f a w).0 ≡ ok b)
  unfolding or_recorded record_failure
  or_recorded_then user_id code (ok a) f w b h = (a, refl, refl, h)
  or_recorded_then user_id code (err e) f w b h = absurd (cc)

-- The audit event is written, or the statement has failed and nothing is.
abbrev pub Audited : AuditEvent → BrokerDb → BrokerDb → Type 0
Audited e d d' = (d' ≡ d) ⊎ (d' ≡ record d { audit_log = insert_event e d.audit_log })

pub record_event_db :
    (e : AuditEvent) (w : World BrokerDb)
    → ((record_event e w).0 ≡ ok tt) × Audited e w.db (record_event e w).1.db
unfolding record_event statement
record_event_db e w = go w.faults
  where
    go :
        (faults : List (Option SqlError))
        → ((record_event e (record w { faults = faults })).0 ≡ ok tt)
          × Audited e w.db (record_event e (record w { faults = faults })).1.db
    go [] = (refl, inr refl)
    go (none ∷ rest) = (refl, inr refl)
    go (some x ∷ rest) = (refl, inl refl)

-- Whether or not the event is written, every other table stands.
pub record_event_rows :
    (e : AuditEvent) (w : World BrokerDb)
    → ((record_event e w).1.db.broker_connections ≡ w.db.broker_connections)
      × ((record_event e w).1.db.sent ≡ w.db.sent)
record_event_rows e w = elim (record_event_db e w).1 [
  | inl same ↦ (ap (λ d. d.broker_connections) same, ap (λ d. d.sent) same)
  | inr written ↦ (ap (λ d. d.broker_connections) written, ap (λ d. d.sent) written)
]

pub audited_then :
    {B : Type 0} (e : AuditEvent) (f : Unit {0} → Action BrokerDb B) (w : World BrokerDb)
    → (record_event e >>= f) w ≡ f tt (record_event e w).1
unfolding record_event
audited_then e f w = refl
