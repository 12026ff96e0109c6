-- ===== src/Billing/Reports/Jobs.antt =====
-- billing/reports.rs and billing/reports_cron.rs: the handlers of the reports, the job that enqueues
-- them and the worker that fills them in. A panic of `previous_month_window` is an internal error
-- here; with a calendar it does not happen.
pub mod Queue
pub mod Request
pub mod Complete
pub mod Drain
mod Tests
use mizan_connect.Base.{
  ℕ, ◌+◌, Str, codes, str_eq, Bool, true, false, ◌||◌, Option, none, some, List, [], ◌∷◌, ◌++◌, ℤ,
  pos, keep, map, ◌==◌, show_i64, if◌then◌else◌,
}
use mizan_connect.Error.{AppError, app_error, internal, Result, ok, err, ok_or}
use mizan_connect.Exec.{Action, World, pure, lift, statement, select, ◌>>=◌, ◌>>◌}
use mizan_connect.Billing.Tables.{Subscription}
use mizan_connect.Billing.Reports.{
  Date, Calendar, previous_month_window, MonthlyReport, ReportsDb, enqueue_pending, fetch_pending,
  list_for_user, mark_succeeded, mark_failed, fetch_one_by_period,
}

-- WORKER_PARALLELISM
abbrev pub worker_parallelism : ℕ
worker_parallelism = 5

abbrev twelve : Option ℤ → ℤ
twelve none = pos 12
twelve (some n) = n

unfoldable pub list_monthly_reports : ℕ → Option ℤ → Action ReportsDb (List MonthlyReport)
list_monthly_reports user_id limit = list_for_user user_id (twelve limit)

abbrev pub panicked : AppError
panicked = app_error internal (codes "valid first-of-month")

abbrev pub vanished : AppError
vanished = app_error internal (codes "report row vanished after enqueue")

-- The status ACCEPTED or OK.
abbrev pub code_of : Bool → ℕ
code_of inserted = if inserted then 202 else 200

abbrev answer_for : Bool → MonthlyReport → ℕ × MonthlyReport
answer_for inserted row = (code_of inserted, row)

abbrev pub request_for : ℕ → ℕ → ℕ → Date × Date → Action ReportsDb (ℕ × MonthlyReport)
request_for id now user_id window = do
  inserted ← enqueue_pending id now user_id window.0 window.1
  found ← fetch_one_by_period user_id window.0
  row ← lift (ok_or vanished found)
  pure (answer_for inserted row)

unfoldable pub request_monthly_report :
    Calendar → Date → ℕ → ℕ → ℕ → Action ReportsDb (ℕ × MonthlyReport)
request_monthly_report calendar today id now user_id = do
  window ← lift (ok_or panicked (previous_month_window calendar today))
  request_for id now user_id window

-- `status IN ('active', 'trialing')`
abbrev pub is_subscribed : Subscription → Bool
is_subscribed a = str_eq a.status (codes "active") || str_eq a.status (codes "trialing")

abbrev pub subscriber : Subscription → ℕ
subscriber a = a.user_id

abbrev pub candidates : ReportsDb → List ℕ
candidates d = map subscriber (keep is_subscribed d.subscriptions)

-- A step whose failure is logged and nothing else.
abbrev pub attempt : {A : Type 0} → Action ReportsDb A → Action ReportsDb (Unit {0})
attempt m w = (ok tt, (m w).1)

-- The loop over the users. `ids` draws the id of a user's row.
unfoldable pub enqueue_all : (ℕ → ℕ) → ℕ → Date × Date → List ℕ → Action ReportsDb (Unit {0})
enqueue_all ids now window [] = pure tt
enqueue_all ids now window (user_id ∷ users) =
    attempt (enqueue_pending (ids user_id) now user_id window.0 window.1)
    >> enqueue_all ids now window users

unfoldable pub run_enqueue : Calendar → Date → (ℕ → ℕ) → ℕ → Action ReportsDb (Unit {0})
unfolding enqueue_all
run_enqueue calendar today ids now = do
  window ← lift (ok_or panicked (previous_month_window calendar today))
  users ← select candidates
  enqueue_all ids now window users

unfoldable pub month_name : ℕ → Str
month_name m =
    if m == 1
    then codes "January"
    else if m == 2
    then codes "February"
    else if m == 3
    then codes "March"
    else if m == 4
    then codes "April"
    else if m == 5
    then codes "May"
    else if m == 6
    then codes "June"
    else if m == 7
    then codes "July"
    else if m == 8
    then codes "August"
    else if m == 9
    then codes "September"
    else if m == 10
    then codes "October"
    else if m == 11
    then codes "November"
    else if m == 12
    then codes "December"
    else codes "Unknown"

module _ (uuid_text : ℕ → Str) (now : ℕ) where
  unfoldable pub placeholder_summary : Str → ℕ → Str
  placeholder_summary month_label user_id =
      codes "## Your "
      ++ month_label
      ++ codes
          " wealth summary\n\n_Coming soon._ The Mizan Connect cloud is wiring up the live AI-driven monthly report generator — once that lands, this card will show your net-worth delta, top movers, income received, goal progress, and liability trend for the month, generated from your own data.\n\nFor now this is a placeholder so the report inbox and the rendering path can be exercised end-to-end.\n\n(Internal: user `"
      ++ uuid_text user_id
      ++ codes "`.)\n\n*This summary is generated from your own data — not investment advice.*"

  abbrev pub summary_of : MonthlyReport → Str
  summary_of row =
      placeholder_summary
        (month_name row.period_start.month ++ codes " " ++ show_i64 (pos row.period_start.year))
        row.user_id

  -- The failure of the first statement, and what is written then; its text is `reason`.
  abbrev pub or_failed :
      ℕ → Str → Result (Unit {0}) × World ReportsDb → Result (Unit {0}) × World ReportsDb
  or_failed id reason (ok _, w) = (ok tt, w)
  or_failed id reason (err e, w) = attempt (mark_failed now id reason) w

  unfoldable pub generate_one : Str → MonthlyReport → Action ReportsDb (Unit {0})
  unfolding month_name placeholder_summary mark_failed
  generate_one reason row w =
      or_failed row.id reason
        (mark_succeeded now row.id (summary_of row) (codes "placeholder-stub") 0 w)

  unfoldable pub generate_all : Str → List MonthlyReport → Action ReportsDb (Unit {0})
  unfolding generate_one
  generate_all reason [] = pure tt
  generate_all reason (row ∷ rows) = generate_one reason row >> generate_all reason rows

  unfoldable pub run_worker_tick : Str → Action ReportsDb (Unit {0})
  unfolding generate_all
  run_worker_tick reason = do
    pending ← fetch_pending worker_parallelism
    generate_all reason pending
