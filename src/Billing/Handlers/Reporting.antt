-- ===== src/Billing/Handlers/Reporting.antt =====
-- When a report of usage is accepted, and what it writes.
use mizan_connect.Base.{ℕ, ◌≡◌, ◌↔◌, refl, sym, ap, ◌∙◌, true, false, [], ◌∷◌, ◌++◌, arith}
use mizan_connect.Error.{ok}
use mizan_connect.Exec.{World, pure, select, statement, transaction, begin, commit, ◌>>=◌}
use mizan_connect.Exec.Laws.{
  lift_then, select_then, statement_then, transaction_ok, bind_ok, commit_db,
}
use mizan_connect.Billing.Tables.{Usage, BillingDb, is_metric}
use mizan_connect.Billing.Repository.{record_usage, record_usage_in, is_negative}
use mizan_connect.Billing.Handlers.{UsageRequest, guard_usage, usage_of, report_usage}

-- The reference: a metric of the table's type, and a number of units that is not negative.
abbrev pub IsReportable : UsageRequest → Type 0
IsReportable req = (is_metric req.metric ≡ true) × (is_negative req.units ≡ false)

guard_sound : (req : UsageRequest) → guard_usage req ≡ ok tt → IsReportable req
unfolding is_metric
guard_sound req h = (ground arith, ground arith)

guard_complete : (req : UsageRequest) → IsReportable req → guard_usage req ≡ ok tt
unfolding is_metric
guard_complete req h = ground arith

record_done :
    (u : Usage) (d : BillingDb)
    → (record_usage_in u d).0 ≡ ok tt
    → (record_usage_in u d).1 ≡ record d { usage_ledger = d.usage_ledger ++ u ∷ [] }
record_done u d h = ground arith

-- What an accepted report of usage writes. If the handler answers with a status, the status is 202,
-- the request names a metric of the table and units that are not negative, and the tables have one
-- more row of the ledger, which costs no credits, and no other change.
pub report_usage_sound :
    (user_id : ℕ) (req : UsageRequest) (w : World BillingDb) (code : ℕ)
    → (report_usage user_id req w).0 ≡ ok code
    → (code ≡ 202)
      × IsReportable req
      × ((report_usage user_id req w).1.db
          ≡ record w.db { usage_ledger = w.db.usage_ledger ++ usage_of user_id req ∷ [] })
unfolding report_usage begin record_usage
report_usage_sound user_id req w code h =
    let row = usage_of user_id req in
    let finish = λ (_ : Unit {0}). statement (record_usage_in row) >>= λ (_ : Unit {0}). commit in
    let write = select (λ _. tt) >>= finish in
    let answer = λ (_ : Unit {0}). pure {D = BillingDb} 202 in
    let run = λ (_ : Unit {0}). transaction write >>= answer in
    let (_, passed, e1, h1) = lift_then (guard_usage req) run w code h in
    let (_, written, e2) = bind_ok (transaction write) answer w code h1 in
    let (inner, same) = transaction_ok write w tt written in
    let (w1, s1, e3, h3) = select_then (λ _. tt) finish w tt inner in
    let (_, w2, r2, s2, e4, h4) =
      statement_then (record_usage_in row) (λ (_ : Unit {0}). commit) w1 tt h3 in
    (
      sym (cc (ap (λ r. r.0) (sym e2) ∙ h1)),
      guard_sound req passed,
      ap (λ r. r.1.db) (e1 ∙ e2)
          ∙ ap (λ r. r.1.db) (same ∙ e3 ∙ e4)
          ∙ commit_db w2
          ∙ s2
          ∙ record_done row w1.db r2
          ∙ ap {A = BillingDb} {B = BillingDb}
              (λ d. record d { usage_ledger = d.usage_ledger ++ row ∷ [] }) s1,
    )

accepted :
    (user_id : ℕ) (req : UsageRequest) (d : BillingDb)
    → IsReportable req
    → (report_usage user_id req (record { db = d; faults = [] })).0 ≡ ok 202
unfolding report_usage begin record_usage select statement transaction commit
accepted user_id req d h = rw (guard_complete req h, h.0, h.1) refl

-- The guards of the handler are the checks of the table: where no statement is lost to a fault, a
-- report is accepted exactly when its metric is one of the table's and its units are not negative.
pub report_usage_iff :
    (user_id : ℕ) (req : UsageRequest) (d : BillingDb)
    → ((report_usage user_id req (record { db = d; faults = [] })).0 ≡ ok 202) ↔ IsReportable req
report_usage_iff user_id req d = (
  λ h. (report_usage_sound user_id req (record { db = d; faults = [] }) 202 h).1,
  accepted user_id req d,
)
