-- ===== src/Billing/Reports/Jobs/Tests.antt =====
-- Runs of billing/reports.rs and billing/reports_cron.rs with one subscriber.
use mizan_connect.Base.{
  str_eq, ℕ, ◌+◌, ◌-◌, Str, codes, ◌≡◌, refl, true, false, ◌&&◌, none, some, [], ◌∷◌, ◌==◌, leb,
  if◌then◌else◌, arith, All, exists, ◌≤◌, ◌*◌,
}
use mizan_connect.Error.{ok}
use mizan_connect.Exec.{select, statement, World}
use mizan_connect.Billing.Tables.{Subscription}
use mizan_connect.Billing.Reports.{
  fetch_one_by_period, enqueue_pending, Date, Calendar, previous_month_window, MonthlyReport,
  ReportsDb, for_period,
}
use mizan_connect.Billing.Reports.Window.{
  date, days_in_month, IsCalendar, previous_month_window_lem, window_of,
}
use mizan_connect.Billing.Reports.Jobs.{request_monthly_report, run_enqueue, run_worker_tick}
use mizan_connect.Billing.Reports.Jobs.Queue.{IsQueue, jobs-IsQueue}
use mizan_connect.Billing.Reports.Jobs.Request.{request_monthly_report_once}
use mizan_connect.Billing.Reports.Jobs.Complete.{IsSubscribed, run_enqueue_complete}
use mizan_connect.Billing.Reports.Jobs.Drain.{waiting, ticks, ticks_drain}

abbrev day_before : Date → Date
day_before d =
    if d.month == 1
    then date (d.year - 1) 12 31
    else date d.year (d.month - 1) (days_in_month d.year (d.month - 1))

-- Right for the first day of a month, the only day that the code asks it for.
abbrev calendar : Calendar
calendar = record {
  from_calendar_date =
      λ y m d. if leb y 9999 && leb 1 m && leb m 12 then some (date y m d) else none;
  day_before = day_before;
}

less_one : (n : ℕ) → n + 1 - 1 ≡ n
less_one n = omega arith

not_first : (m : ℕ) → 1 ≤ m → (m + 1 == 1) ≡ false
not_first m h = ground arith

calendar-IsCalendar : IsCalendar calendar
calendar-IsCalendar = record {
  first_is_valid = λ y m range low high. ground arith;
  before_first = λ y m range low high. rw (not_first m low) (rw (less_one m) refl);
  before_year = λ y range. rw (less_one y) refl;
}

abbrev subscriber_of : ℕ → Str → Subscription
subscriber_of user_id status = record {
  user_id = user_id;
  team_id = none;
  stripe_customer_id = none;
  stripe_subscription_id = none;
  tier = codes "pro";
  status = status;
  current_period_start = none;
  current_period_end = none;
  cancel_at_period_end = false;
  ai_credits_used = 0;
  ai_credits_period_start = none;
  updated_at = 0;
}

abbrev today : Date
today = date 2026 1 15

abbrev tables : ReportsDb
tables = record { monthly_reports = []; subscriptions = subscriber_of 7 (codes "active") ∷ [] }

abbrev world : World ReportsDb
world = record { db = tables; faults = [] }

abbrev requested : World ReportsDb
requested = (request_monthly_report calendar today 1 100 7 world).1

abbrev row : MonthlyReport
row = record {
  id = 1;
  user_id = 7;
  period_start = date 2025 12 1;
  period_end = date 2025 12 31;
  summary_md = none;
  model = none;
  credits_charged = 0;
  status = codes "pending";
  error = none;
  requested_at = 100;
  generated_at = none;
}

previous_month_window_lem_example :
    (y : ℕ) × (m : ℕ) × (y * 12 + m + 1 ≡ 24313)
    × (1 ≤ m)
    × (m ≤ 12)
    × (previous_month_window calendar today ≡ window_of calendar calendar-IsCalendar (y, m))
previous_month_window_lem_example =
    previous_month_window_lem calendar calendar-IsCalendar today (omega arith) (omega arith)
      (omega arith) (omega arith)

jobs-IsQueue_example :
    IsQueue (request_monthly_report calendar today 1 100 7 world).1.db
    × IsQueue (run_enqueue calendar today (λ n. n) 100 world).1.db
    × IsQueue (run_worker_tick (λ n. n ∷ []) 100 [] world).1.db
jobs-IsQueue_example = jobs-IsQueue calendar today (λ n. n ∷ []) (λ n. n) 1 100 7 [] world tt

request_monthly_report_once_example :
    request_monthly_report calendar
      (date 2026 1 20)
      2
      200
      7
      (record { db = requested.db; faults = [] })
    ≡ (ok (200, row), record { db = requested.db; faults = [] })
unfolding request_monthly_report previous_month_window enqueue_pending statement fetch_one_by_period
    select
request_monthly_report_once_example =
    request_monthly_report_once calendar today (date 2026 1 20) 7 1 100 2 200 world 202 row
      requested.db refl refl refl

run_enqueue_complete_example :
    All
      (λ a.
        IsSubscribed a
        → exists
            (for_period a.user_id (date 2025 12 1))
            (run_enqueue calendar today (λ n. n) 100 world).1.db.monthly_reports
          ≡ true)
      tables.subscriptions
unfolding previous_month_window
run_enqueue_complete_example =
    run_enqueue_complete calendar today (λ n. n) 100 (date 2025 12 1, date 2025 12 31) tables refl

abbrev waiting_tables : ReportsDb
waiting_tables = record tables { monthly_reports = row ∷ [] }

one_waits : waiting waiting_tables ≡ 1
unfolding str_eq
one_waits = refl

ticks_drain_example : waiting (ticks (λ n. n ∷ []) [] (300 ∷ []) waiting_tables) ≡ 0
unfolding str_eq
ticks_drain_example = ticks_drain (λ n. n ∷ []) [] (300 ∷ []) waiting_tables (omega arith)
