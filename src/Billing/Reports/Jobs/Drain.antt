-- ===== src/Billing/Reports/Jobs/Drain.antt =====
-- billing/reports_cron.rs: the ticks of the worker empty the queue.
use mizan_connect.Base.{
  ℕ, zero, suc, ◌≤◌, ◌<◌, Str, codes, str_eq, ◌≡◌, refl, sym, ap, subst, Bool, true, false, ◌&&◌,
  List, [], ◌∷◌, length, keep, take, exists, update_where, All, All-map, Bool-cases, inl, inr,
  ==_refl, if◌then◌else◌, arith,
}
use mizan_connect.Error.{ok}
use mizan_connect.Exec.{statement, select}
use mizan_connect.Billing.Reports.{
  MonthlyReport, ReportsDb, is_pending, pending_in, fetch_pending, order_by, insert_by, report_id,
  succeeded_report, mark_succeeded, older_request,
}
use mizan_connect.Billing.Reports.Jobs.{
  worker_parallelism, summary_of, generate_one, generate_all, run_worker_tick,
}

-- The number of reports that wait.
abbrev pub waiting : ReportsDb → ℕ
waiting d = length (keep is_pending d.monthly_reports)

abbrev waits_with : ℕ → MonthlyReport → Bool
waits_with id r = is_pending r && report_id id r

module _ (now : ℕ) (summary : Str) (id : ℕ) where
  abbrev filled : List MonthlyReport → List MonthlyReport
  filled rows =
      update_where (report_id id) (succeeded_report now summary (codes "placeholder-stub") 0) rows

  filled_row :
      (r : MonthlyReport)
      → is_pending (succeeded_report now summary (codes "placeholder-stub") 0 r) ≡ false
  unfolding str_eq
  filled_row r = refl

  length-filled-le :
      (rows : List MonthlyReport)
      → length (keep is_pending (filled rows)) ≤ length (keep is_pending rows)
  length-filled-le [] = omega arith
  length-filled-le (r ∷ rows) = ground (arith, filled_row r, length-filled-le rows)

  -- A waiting report with that id is one less.
  length-filled-lt :
      (rows : List MonthlyReport)
      → exists (waits_with id) rows ≡ true
      → length (keep is_pending (filled rows)) < length (keep is_pending rows)
  length-filled-lt [] h = absurd (cc)
  length-filled-lt (r ∷ rows) h =
      ground (arith, filled_row r, length-filled-le rows, length-filled-lt rows)

-- Whatever order the query asks for, its rows are rows of the table.
All-insert_by :
    (P : MonthlyReport → Type 0) (before : MonthlyReport → MonthlyReport → Bool) (r : MonthlyReport)
    (rows : List MonthlyReport)
    → P r
    → All P rows
    → All P (insert_by before r rows)
All-insert_by P before r [] p h = (p, tt)
All-insert_by P before r (s ∷ rows) p (q, h) = elim (Bool-cases (before s r)) [
  | inl e ↦ rw e (q, All-insert_by P before r rows p h)
  | inr e ↦ rw e (p, (q, h))
]

All-order_by :
    (P : MonthlyReport → Type 0) (before : MonthlyReport → MonthlyReport → Bool)
    (rows : List MonthlyReport)
    → All P rows
    → All P (order_by before rows)
All-order_by P before [] h = tt
All-order_by P before (r ∷ rows) (p, h) =
    All-insert_by P before r (order_by before rows) p (All-order_by P before rows h)

insert_by-cons :
    (before : MonthlyReport → MonthlyReport → Bool) (r : MonthlyReport) (rows : List MonthlyReport)
    → (s : MonthlyReport) × (rest : List MonthlyReport) × (insert_by before r rows ≡ s ∷ rest)
insert_by-cons before r [] = (r, [], refl)
insert_by-cons before r (s ∷ rows) = elim (Bool-cases (before s r)) [
  | inl e ↦ (s, insert_by before r rows, rw e refl)
  | inr e ↦ (r, s ∷ rows, rw e refl)
]

-- Every waiting row is found again by its id.
each_waits :
    (rows : List MonthlyReport)
    → All (λ r. exists (waits_with r.id) rows ≡ true) (keep is_pending rows)
each_waits [] = tt
each_waits (r ∷ rows) =
    go (is_pending r) (λ e. ground (arith, ==_refl r.id))
      (All-map (keep is_pending rows) (λ s h. ground arith) (each_waits rows)) refl
  where
    Q : MonthlyReport → Type 0
    Q s = exists (waits_with s.id) (r ∷ rows) ≡ true

    go :
        (b : Bool)
        → (is_pending r ≡ true → Q r)
        → All Q (keep is_pending rows)
        → is_pending r ≡ b
        → All Q (if b then r ∷ keep is_pending rows else keep is_pending rows)
    go true here more e = (here e, more)
    go false here more e = more

module _ (uuid_text : ℕ → Str) (now : ℕ) (reason : Str) where
  abbrev done_one : MonthlyReport → ReportsDb → ReportsDb
  done_one row d = record d {
    monthly_reports = filled now (summary_of uuid_text now row) row.id d.monthly_reports;
  }

  abbrev done_all : List MonthlyReport → ReportsDb → ReportsDb
  done_all [] d = d
  done_all (row ∷ rows) d = done_all rows (done_one row d)

  -- With no fault the worker fills in every row of its batch.
  generate_all_runs :
      (rows : List MonthlyReport) (d : ReportsDb)
      → generate_all uuid_text now reason rows (record { db = d; faults = [] })
        ≡ (ok tt, record { db = done_all rows d; faults = [] })
  unfolding generate_all generate_one mark_succeeded statement
  generate_all_runs [] d = refl
  generate_all_runs (row ∷ rows) d = generate_all_runs rows (done_one row d)

  waiting-done_all-le :
      (rows : List MonthlyReport) (d : ReportsDb) → waiting (done_all rows d) ≤ waiting d
  waiting-done_all-le [] d = omega arith
  waiting-done_all-le (row ∷ rows) d = omega (
    arith,
    waiting-done_all-le rows (done_one row d),
    length-filled-le now (summary_of uuid_text now row) row.id d.monthly_reports,
  )

  waiting-done_all-lt :
      (batch rows : List MonthlyReport) (r : MonthlyReport) (d : ReportsDb)
      → batch ≡ r ∷ rows
      → exists (waits_with r.id) d.monthly_reports ≡ true
      → waiting (done_all batch d) < waiting d
  waiting-done_all-lt batch rows r d e h =
      subst (λ b. waiting (done_all b d) < waiting d) (sym e)
        (omega (
          arith,
          waiting-done_all-le rows (done_one r d),
          length-filled-lt now (summary_of uuid_text now r) r.id d.monthly_reports h,
        ))

  abbrev tick : ReportsDb → ReportsDb
  tick d = (run_worker_tick uuid_text now reason (record { db = d; faults = [] })).1.db

  batch_lt :
      (queue : List MonthlyReport) (d : ReportsDb)
      → All (λ r. exists (waits_with r.id) d.monthly_reports ≡ true) queue
      → 0 < length queue
      → waiting (done_all (take worker_parallelism (order_by older_request queue)) d) < waiting d
  batch_lt [] d h n = absurd (omega (arith, n))
  batch_lt (x ∷ xs) d h n =
      let Q = λ (r : MonthlyReport). exists (waits_with r.id) d.monthly_reports ≡ true in
      let (s, rest, e) = insert_by-cons older_request x (order_by older_request xs) in
      let all = subst (All Q) e (All-order_by Q older_request (x ∷ xs) h) in
      waiting-done_all-lt (take worker_parallelism (order_by older_request (x ∷ xs))) (take 4 rest)
        s d (ap (take worker_parallelism) e) all.0

  -- A tick makes the queue shorter, as long as a report waits.
  tick_progress :
      (d : ReportsDb)
      → (waiting (tick d) ≤ waiting d) × (0 < waiting d → waiting (tick d) < waiting d)
  unfolding run_worker_tick fetch_pending select statement
  tick_progress d =
      let batch = pending_in worker_parallelism d in
      let same = ap (λ r. r.1.db) (generate_all_runs batch d) in
      (
        subst (λ e. waiting e ≤ waiting d) (sym same) (waiting-done_all-le batch d),
        λ n.
            subst (λ e. waiting e < waiting d) (sym same)
              (batch_lt (keep is_pending d.monthly_reports) d (each_waits d.monthly_reports) n),
      )

-- Ticks at their instants, one after another, with no fault.
abbrev pub ticks : (ℕ → Str) → Str → List ℕ → ReportsDb → ReportsDb
ticks uuid_text reason [] d = d
ticks uuid_text reason (now ∷ times) d =
    ticks uuid_text reason times
      (run_worker_tick uuid_text now reason (record { db = d; faults = [] })).1.db

-- The queue is emptied: with no fault, and as many ticks of the worker as reports wait, or more, no
-- report waits any longer.
pub ticks_drain :
    (uuid_text : ℕ → Str) (reason : Str) (times : List ℕ) (d : ReportsDb)
    → waiting d ≤ length times
    → waiting (ticks uuid_text reason times d) ≡ 0
ticks_drain uuid_text reason [] d h = omega (arith, h)
ticks_drain uuid_text reason (now ∷ times) d h =
    let (le, lt) = tick_progress uuid_text now reason d in
    ticks_drain uuid_text reason times (tick uuid_text now reason d)
      (shorter (waiting d) (waiting (tick uuid_text now reason d)) (length times) h le lt)
  where
    shorter : (n m k : ℕ) → n ≤ suc k → m ≤ n → (0 < n → m < n) → m ≤ k
    shorter zero m k h le lt = omega (arith, le)
    shorter (suc n) m k h le lt = omega (arith, h, lt (omega arith))
