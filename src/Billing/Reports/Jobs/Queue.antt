-- ===== src/Billing/Reports/Jobs/Queue.antt =====
-- billing/reports.rs and billing/reports_cron.rs: a user has one report of a month.
use mizan_connect.Base.{
  ℕ, Str, ◌≡◌, refl, sym, ap, ◌∙◌, subst, Bool, true, false, List, [], ◌∷◌, ◌++◌, exists,
  update_where, Bool-cases, inl, inr, if◌then◌else◌, arith, codes,
}
use mizan_connect.Error.{Result, ok, err}
use mizan_connect.Exec.{Action, World, lift, select, ◌>>=◌}
use mizan_connect.Exec.Laws.{bind_keeps, select_db, statement_keeps}
use mizan_connect.Billing.Reports.{
  Date, Calendar, MonthlyReport, ReportsDb, for_period, pending_report, enqueue_in, enqueue_pending,
  fetch_pending, update_report, report_id, succeeded_report, failed_report, mark_succeeded,
  mark_failed, fetch_one_by_period,
}
use mizan_connect.Billing.Reports.Jobs.{
  request_monthly_report, enqueue_all, run_enqueue, generate_one, generate_all, run_worker_tick,
  or_failed, summary_of,
}

-- No two reports of one user and month.
abbrev pub OnePerPeriod : List MonthlyReport → Type 0
OnePerPeriod [] = Unit
OnePerPeriod (r ∷ rows) =
    (exists (for_period r.user_id r.period_start) rows ≡ false) × OnePerPeriod rows

abbrev pub IsQueue : ReportsDb → Type 0
IsQueue d = OnePerPeriod d.monthly_reports

exists_snoc :
    (p : MonthlyReport → Bool) (rows : List MonthlyReport) (r : MonthlyReport)
    → exists p rows ≡ false
    → p r ≡ false
    → exists p (rows ++ r ∷ []) ≡ false
exists_snoc p [] r h k = ground arith
exists_snoc p (s ∷ rows) r h k = ground (arith, exists_snoc p rows r)

for_period_sym :
    (a b : MonthlyReport)
    → for_period a.user_id a.period_start b ≡ false
    → for_period b.user_id b.period_start a ≡ false
for_period_sym a b h = ground arith

exists_first :
    (r s : MonthlyReport) (rows : List MonthlyReport)
    → exists (for_period r.user_id r.period_start) (s ∷ rows) ≡ false
    → (for_period s.user_id s.period_start r ≡ false)
      × (exists (for_period r.user_id r.period_start) rows ≡ false)
exists_first r s rows h = (for_period_sym r s (ground arith), ground arith)

OnePerPeriod-snoc :
    (rows : List MonthlyReport) (r : MonthlyReport)
    → OnePerPeriod rows
    → exists (for_period r.user_id r.period_start) rows ≡ false
    → OnePerPeriod (rows ++ r ∷ [])
OnePerPeriod-snoc [] r one h = (refl, tt)
OnePerPeriod-snoc (s ∷ rows) r (free, one) h =
    let (apart, rest) = exists_first r s rows h in
    (
      exists_snoc (for_period s.user_id s.period_start) rows r free apart,
      OnePerPeriod-snoc rows r one rest,
    )

module _ (id : ℕ) (change : MonthlyReport → MonthlyReport)
    (user : (r : MonthlyReport) → (change r).user_id ≡ r.user_id)
    (period : (r : MonthlyReport) → (change r).period_start ≡ r.period_start) where
  exists-update :
      (user_id : ℕ) (start : Date) (rows : List MonthlyReport)
      → exists (for_period user_id start) (update_where (report_id id) change rows)
        ≡ exists (for_period user_id start) rows
  exists-update user_id start [] = refl
  exists-update user_id start (r ∷ rows) =
      ground (arith, user r, period r, exists-update user_id start rows)

  OnePerPeriod-update :
      (rows : List MonthlyReport)
      → OnePerPeriod rows
      → OnePerPeriod (update_where (report_id id) change rows)
  OnePerPeriod-update [] one = tt
  OnePerPeriod-update (r ∷ rows) (free, one) = (go (report_id id r), OnePerPeriod-update rows one)
    where
      changed :
          exists (for_period r.user_id r.period_start) (update_where (report_id id) change rows)
          ≡ false
      changed = exists-update r.user_id r.period_start rows ∙ free

      go :
          (b : Bool)
          → exists
              (for_period
                (if b then change r else r).user_id
                (if b then change r else r).period_start)
              (update_where (report_id id) change rows)
            ≡ false
      go true =
          ap
            (λ u.
              exists (for_period u (change r).period_start)
                (update_where (report_id id) change rows))
            (user r)
          ∙ ap (λ s. exists (for_period r.user_id s) (update_where (report_id id) change rows))
              (period r)
          ∙ changed
      go false = changed

enqueue_keeps : (r : MonthlyReport) (d : ReportsDb) → IsQueue d → IsQueue (enqueue_in r d).1
enqueue_keeps r d one =
    elim (Bool-cases (exists (for_period r.user_id r.period_start) d.monthly_reports)) [
      | inl e ↦ rw e one
      | inr e ↦ rw e (OnePerPeriod-snoc d.monthly_reports r one e)
    ]

abbrev Keeps : {A : Type 0} → Action ReportsDb A → Type 0
Keeps m = (w : World ReportsDb) → IsQueue w.db → IsQueue (m w).1.db

Keeps-bind :
    {A B : Type 0} (m : Action ReportsDb A) (f : A → Action ReportsDb B)
    → Keeps m
    → ((a : A) → Keeps (f a))
    → Keeps (m >>= f)
Keeps-bind m f k l w one = bind_keeps IsQueue m f w (k w one) (λ a _. l a (m w).1 (k w one))

Keeps-lift : {A : Type 0} (r : Result A) → Keeps (lift r)
Keeps-lift r w one = one

Keeps-select : {A : Type 0} (g : ReportsDb → A) → Keeps (select g)
Keeps-select g w one = subst IsQueue (sym (select_db g w)) one

Keeps-enqueue :
    (id now user_id : ℕ) (start end : Date) → Keeps (enqueue_pending id now user_id start end)
unfolding enqueue_pending
Keeps-enqueue id now user_id start end w one =
    statement_keeps IsQueue (enqueue_in (pending_report id now user_id start end)) w
      (enqueue_keeps (pending_report id now user_id start end)) one

Keeps-succeeded :
    (now id : ℕ) (summary model : Str) (credits : ℕ)
    → Keeps (mark_succeeded now id summary model credits)
unfolding mark_succeeded
Keeps-succeeded now id summary model credits w one =
    statement_keeps IsQueue (update_report id (succeeded_report now summary model credits)) w
      (λ d.
        OnePerPeriod-update id (succeeded_report now summary model credits) (λ r. refl) (λ r. refl)
          d.monthly_reports)
      one

Keeps-failed : (now id : ℕ) (reason : Str) → Keeps (mark_failed now id reason)
unfolding mark_failed
Keeps-failed now id reason w one =
    statement_keeps IsQueue (update_report id (failed_report now reason)) w
      (λ d.
        OnePerPeriod-update id (failed_report now reason) (λ r. refl) (λ r. refl) d.monthly_reports)
      one

Keeps-one :
    (uuid_text : ℕ → Str) (now : ℕ) (reason : Str) (row : MonthlyReport)
    → Keeps (generate_one uuid_text now reason row)
unfolding generate_one
Keeps-one uuid_text now reason row w one =
    let summary = summary_of uuid_text now row in
    let kept = Keeps-succeeded now row.id summary (codes "placeholder-stub") 0 w one in
    go (mark_succeeded now row.id summary (codes "placeholder-stub") 0 w) kept
  where
    go :
        (r : Result (Unit {0}) × World ReportsDb)
        → IsQueue r.1.db
        → IsQueue (or_failed uuid_text now row.id reason r).1.db
    go (ok _, w') k = k
    go (err e, w') k = Keeps-failed now row.id reason w' k

Keeps-all :
    (uuid_text : ℕ → Str) (now : ℕ) (reason : Str) (rows : List MonthlyReport)
    → Keeps (generate_all uuid_text now reason rows)
unfolding generate_all
Keeps-all uuid_text now reason [] w one = one
Keeps-all uuid_text now reason (row ∷ rows) w one =
    Keeps-bind (generate_one uuid_text now reason row) (λ _. generate_all uuid_text now reason rows)
      (Keeps-one uuid_text now reason row) (λ _. Keeps-all uuid_text now reason rows) w one

Keeps-users :
    (ids : ℕ → ℕ) (now : ℕ) (window : Date × Date) (users : List ℕ)
    → Keeps (enqueue_all ids now window users)
unfolding enqueue_all
Keeps-users ids now window [] w one = one
Keeps-users ids now window (user_id ∷ users) w one =
    Keeps-users ids now window users
      (enqueue_pending (ids user_id) now user_id window.0 window.1 w).1
      (Keeps-enqueue (ids user_id) now user_id window.0 window.1 w one)

-- Whoever asks for a report and however the jobs run, with whatever faults, the queue never holds two
-- reports of one user and month: a request, the monthly job and a tick of the worker keep that.
pub jobs-IsQueue :
    (calendar : Calendar) (today : Date) (uuid_text : ℕ → Str) (ids : ℕ → ℕ) (id now user_id : ℕ)
    (reason : Str) (w : World ReportsDb)
    → IsQueue w.db
    → IsQueue (request_monthly_report calendar today id now user_id w).1.db
      × IsQueue (run_enqueue calendar today ids now w).1.db
      × IsQueue (run_worker_tick uuid_text now reason w).1.db
unfolding request_monthly_report run_enqueue run_worker_tick fetch_pending fetch_one_by_period
jobs-IsQueue calendar today uuid_text ids id now user_id reason w one = (
  search (Keeps-bind, Keeps-lift, Keeps-select, Keeps-enqueue) depth 8,
  search (Keeps-bind, Keeps-lift, Keeps-select, Keeps-users) depth 8,
  search (Keeps-bind, Keeps-select, Keeps-all) depth 8,
)
