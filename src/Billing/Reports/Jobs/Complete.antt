-- ===== src/Billing/Reports/Jobs/Complete.antt =====
-- billing/reports_cron.rs: the monthly job reaches every subscriber.
use mizan_connect.Base.{
  codes, str_eq_iff, ◌⊎◌, keep, map, if◌then◌else◌, subst, ℕ, ◌≡◌, Bool, true, some, List, [], ◌∷◌,
  ◌++◌, exists, All, Bool-cases, inl, inr, arith,
}
use mizan_connect.Exec.{World, statement, select}
use mizan_connect.Billing.Tables.{Subscription}
use mizan_connect.Billing.Reports.{
  Date, Calendar, previous_month_window, MonthlyReport, ReportsDb, for_period, pending_report,
  enqueue_in, enqueue_pending,
}
use mizan_connect.Billing.Reports.Jobs.{
  is_subscribed, subscriber, candidates, enqueue_all, run_enqueue,
}

-- No entry of the schedule is a fault.
abbrev calm : ReportsDb → World ReportsDb
calm d = record { db = d; faults = [] }

abbrev HasReport : Date → ReportsDb → ℕ → Type 0
HasReport start d user_id = exists (for_period user_id start) d.monthly_reports ≡ true

exists-append :
    (p : MonthlyReport → Bool) (rows more : List MonthlyReport)
    → exists p rows ≡ true
    → exists p (rows ++ more) ≡ true
exists-append p [] more h = absurd (cc)
exists-append p (r ∷ rows) more h = ground (arith, exists-append p rows more)

exists_last :
    (p : MonthlyReport → Bool) (rows : List MonthlyReport) (r : MonthlyReport)
    → p r ≡ true
    → exists p (rows ++ r ∷ []) ≡ true
exists_last p [] r h = ground arith
exists_last p (s ∷ rows) r h = ground (arith, exists_last p rows r)

for_itself :
    (id now user_id : ℕ) (start end : Date)
    → for_period user_id start (pending_report id now user_id start end) ≡ true
for_itself id now user_id start end = ground arith

enqueue_has :
    (id now user_id : ℕ) (start end : Date) (d : ReportsDb)
    → HasReport start (enqueue_in (pending_report id now user_id start end) d).1 user_id
enqueue_has id now user_id start end d =
    elim (Bool-cases (exists (for_period user_id start) d.monthly_reports)) [
      | inl e ↦ rw e e
      | inr e ↦ rw e (
          exists_last (for_period user_id start) d.monthly_reports
            (pending_report id now user_id start end) (for_itself id now user_id start end))
    ]

enqueue_still :
    (id now user_id other : ℕ) (start end : Date) (d : ReportsDb)
    → HasReport start d other
    → HasReport start (enqueue_in (pending_report id now user_id start end) d).1 other
enqueue_still id now user_id other start end d h =
    elim (Bool-cases (exists (for_period user_id start) d.monthly_reports)) [
      | inl e ↦ rw e h
      | inr e ↦ rw e (
          exists-append (for_period other start) d.monthly_reports
            (pending_report id now user_id start end ∷ []) h)
    ]

module _ (ids : ℕ → ℕ) (now : ℕ) (window : Date × Date) where
  still :
      (users : List ℕ) (other : ℕ) (d : ReportsDb)
      → HasReport window.0 d other
      → HasReport window.0 (enqueue_all ids now window users (calm d)).1.db other
  unfolding enqueue_all enqueue_pending statement
  still [] other d h = h
  still (user_id ∷ users) other d h =
      still users other
        (enqueue_in (pending_report (ids user_id) now user_id window.0 window.1) d).1
        (enqueue_still (ids user_id) now user_id other window.0 window.1 d h)

  all_have :
      (users : List ℕ) (d : ReportsDb)
      → All (HasReport window.0 (enqueue_all ids now window users (calm d)).1.db) users
  unfolding enqueue_all enqueue_pending statement
  all_have [] d = tt
  all_have (user_id ∷ users) d =
      let d2 = (enqueue_in (pending_report (ids user_id) now user_id window.0 window.1) d).1 in
      (
        still users user_id d2 (enqueue_has (ids user_id) now user_id window.0 window.1 d),
        all_have users d2,
      )

-- A subscription that counts.
abbrev pub IsSubscribed : Subscription → Type 0
IsSubscribed a = (a.status ≡ codes "active") ⊎ (a.status ≡ codes "trialing")

subscribed : (a : Subscription) → IsSubscribed a → is_subscribed a ≡ true
subscribed a (inl e) = let k = (str_eq_iff a.status (codes "active")).1 e in ground arith
subscribed a (inr e) = let k = (str_eq_iff a.status (codes "trialing")).1 e in ground arith

-- The query leaves out no subscription that counts.
all-IsSubscribed :
    (P : ℕ → Type 0) (rows : List Subscription)
    → All P (map subscriber (keep is_subscribed rows))
    → All (λ a. IsSubscribed a → P a.user_id) rows
all-IsSubscribed P [] h = tt
all-IsSubscribed P (a ∷ rows) h = elim (Bool-cases (is_subscribed a)) [
  | inl e ↦
      let rest = keep is_subscribed rows in
      let (p, ps) = subst (λ b. All P (map subscriber (if b then a ∷ rest else rest))) e h in
      ((λ _. p), all-IsSubscribed P rows ps)
  | inr e ↦
      let rest = keep is_subscribed rows in
      let ps = subst (λ b. All P (map subscriber (if b then a ∷ rest else rest))) e h in
      ((λ is. absurd (cc (subscribed a is, e))), all-IsSubscribed P rows ps)
]

-- With no fault, the monthly job leaves the user of every active or trialing subscription with a
-- report of the month before, whether it was there already or is new.
pub run_enqueue_complete :
    (calendar : Calendar) (today : Date) (ids : ℕ → ℕ) (now : ℕ) (window : Date × Date)
    (d : ReportsDb)
    → previous_month_window calendar today ≡ some window
    → All
        (λ a.
          IsSubscribed a
          → exists
              (for_period a.user_id window.0)
              (run_enqueue calendar today ids now
                (record { db = d; faults = [] })).1.db.monthly_reports
            ≡ true)
        d.subscriptions
unfolding run_enqueue select statement
run_enqueue_complete calendar today ids now window d h = rw h (
    all-IsSubscribed (HasReport window.0 (enqueue_all ids now window (candidates d) (calm d)).1.db)
      d.subscriptions (all_have ids now window (candidates d) d))
