-- ===== src/Billing/Reports.antt =====
-- billing/reports.rs and billing/reports_cron.rs: the monthly reports, their queue and the worker.
-- `time::Date` is its year, month and day; the two operations of the `time` crate on it are a
-- `Calendar`. The instant of NOW() and the UUID that the database draws are arguments, as is the
-- text of a UUID. The scheduler, which starts the two jobs, is left out; the tasks of one tick are
-- run one after another.
pub mod Window
pub mod Jobs
use mizan_connect.Base.{
  ℕ, suc, ◌+◌, ◌-◌, Str, codes, str_eq, Bool, true, false, not, ◌&&◌, ◌||◌, Option, none, some,
  List, [], ◌∷◌, ◌++◌, ltb, ◌==◌, take, keep, first, exists, update_where, map, ℤ, pos, negsuc,
  if◌then◌else◌,
}
use mizan_connect.Error.{AppError, app_error, internal, SqlError, from_sqlx, Result, ok, err, ok_or}
use mizan_connect.Exec.{Action, World, pure, lift, statement, select, ◌>>=◌, ◌>>◌}
use mizan_connect.Billing.Tables.{Subscription}

pub record Date : Type 0 where
  pub year : ℕ
  pub month : ℕ
  pub day : ℕ

abbrev pub date_eq : Date → Date → Bool
date_eq a b = a.year == b.year && a.month == b.month && a.day == b.day

abbrev pub date_lt : Date → Date → Bool
date_lt a b =
    ltb a.year b.year
    || a.year == b.year && (ltb a.month b.month || a.month == b.month && ltb a.day b.day)

-- `Date::from_calendar_date`, where nothing is the error that `expect` turns into a panic, and
-- `- Duration::days(1)`.
pub record Calendar : Type 0 where
  pub from_calendar_date : ℕ → ℕ → ℕ → Option Date
  pub day_before : Date → Date

-- `Month::previous` and `Month::next`, which wrap.
abbrev pub previous_month : ℕ → ℕ
previous_month m = if m == 1 then 12 else m - 1

abbrev pub next_month : ℕ → ℕ
next_month m = if m == 12 then 1 else m + 1

module _ (calendar : Calendar) where
  abbrev pub first_of_next : Date → Option Date
  first_of_next start =
      if start.month == 12
      then calendar.from_calendar_date (start.year + 1) 1 1
      else calendar.from_calendar_date start.year (next_month start.month) 1

  abbrev pub end_of : Date → Option Date → Option (Date × Date)
  end_of start none = none
  end_of start (some next_month_first) = some (start, calendar.day_before next_month_first)

  abbrev pub from_start : Option Date → Option (Date × Date)
  from_start none = none
  from_start (some start) = end_of start (first_of_next start)

  abbrev pub month_before : Date → ℕ × ℕ
  month_before today =
      if today.month == 1
      then (today.year - 1, previous_month today.month)
      else (today.year, previous_month today.month)

  -- Nothing stands for the panic.
  unfoldable pub previous_month_window : Date → Option (Date × Date)
  previous_month_window today =
      let (year, month) = month_before today in
      from_start (calendar.from_calendar_date year month 1)

pub record MonthlyReport : Type 0 where
  pub id : ℕ
  pub user_id : ℕ
  pub period_start : Date
  pub period_end : Date
  pub summary_md : Option Str
  pub model : Option Str
  pub credits_charged : ℕ
  pub status : Str
  pub error : Option Str
  pub requested_at : ℕ
  pub generated_at : Option ℕ

pub record ReportsDb : Type 0 where
  pub monthly_reports : List MonthlyReport
  pub subscriptions : List Subscription

abbrev pub for_period : ℕ → Date → MonthlyReport → Bool
for_period user_id period_start r = r.user_id == user_id && date_eq r.period_start period_start

abbrev pub pending_report : ℕ → ℕ → ℕ → Date → Date → MonthlyReport
pending_report id now user_id period_start period_end = record {
  id = id;
  user_id = user_id;
  period_start = period_start;
  period_end = period_end;
  summary_md = none;
  model = none;
  credits_charged = 0;
  status = codes "pending";
  error = none;
  requested_at = now;
  generated_at = none;
}

-- `ON CONFLICT (user_id, period_start) DO NOTHING`; the value is whether a row was inserted.
abbrev pub enqueue_in : MonthlyReport → ReportsDb → Result Bool × ReportsDb
enqueue_in r d =
    if exists (for_period r.user_id r.period_start) d.monthly_reports
    then (ok false, d)
    else (ok true, record d { monthly_reports = d.monthly_reports ++ r ∷ [] })

unfoldable pub enqueue_pending : ℕ → ℕ → ℕ → Date → Date → Action ReportsDb Bool
enqueue_pending id now user_id period_start period_end =
    statement (enqueue_in (pending_report id now user_id period_start period_end))

-- `ORDER BY`: a row goes in front of the first one that it has to precede.
abbrev pub insert_by :
    (MonthlyReport → MonthlyReport → Bool) → MonthlyReport → List MonthlyReport → List MonthlyReport
insert_by before r [] = r ∷ []
insert_by before r (s ∷ rows) =
    let rest = insert_by before r rows in if before s r then s ∷ rest else r ∷ s ∷ rows

abbrev pub order_by :
    (MonthlyReport → MonthlyReport → Bool) → List MonthlyReport → List MonthlyReport
order_by before [] = []
order_by before (r ∷ rows) = insert_by before r (order_by before rows)

abbrev pub is_pending : MonthlyReport → Bool
is_pending r = str_eq r.status (codes "pending")

abbrev pub older_request : MonthlyReport → MonthlyReport → Bool
older_request a b = ltb a.requested_at b.requested_at

abbrev newer_period : MonthlyReport → MonthlyReport → Bool
newer_period a b = date_lt b.period_start a.period_start

abbrev pub pending_in : ℕ → ReportsDb → List MonthlyReport
pending_in limit d = take limit (order_by older_request (keep is_pending d.monthly_reports))

unfoldable pub fetch_pending : ℕ → Action ReportsDb (List MonthlyReport)
fetch_pending limit = select (pending_in limit)

abbrev belongs_to : ℕ → MonthlyReport → Bool
belongs_to user_id r = r.user_id == user_id

-- `limit.clamp(1, 24)`
abbrev pub page_size : ℤ → ℕ
page_size (negsuc n) = 1
page_size (pos n) = if ltb n 1 then 1 else if ltb 24 n then 24 else n

unfoldable pub list_for_user : ℕ → ℤ → Action ReportsDb (List MonthlyReport)
list_for_user user_id limit = select (λ d.
    take (page_size limit) (order_by newer_period (keep (belongs_to user_id) d.monthly_reports)))

abbrev pub succeeded_report : ℕ → Str → Str → ℕ → MonthlyReport → MonthlyReport
succeeded_report now summary_md model credits r = record r {
  status = codes "succeeded";
  summary_md = some summary_md;
  model = some model;
  credits_charged = credits;
  generated_at = some now;
  error = none;
}

abbrev pub failed_report : ℕ → Str → MonthlyReport → MonthlyReport
failed_report now reason r = record r {
  status = codes "failed";
  error = some reason;
  generated_at = some now;
}

abbrev pub report_id : ℕ → MonthlyReport → Bool
report_id id r = r.id == id

abbrev pub update_report :
    ℕ → (MonthlyReport → MonthlyReport) → ReportsDb → Result (Unit {0}) × ReportsDb
update_report id change d =
    (ok tt, record d { monthly_reports = update_where (report_id id) change d.monthly_reports })

unfoldable pub mark_succeeded : ℕ → ℕ → Str → Str → ℕ → Action ReportsDb (Unit {0})
mark_succeeded now id summary_md model credits =
    statement (update_report id (succeeded_report now summary_md model credits))

unfoldable pub mark_failed : ℕ → ℕ → Str → Action ReportsDb (Unit {0})
mark_failed now id reason = statement (update_report id (failed_report now reason))

unfoldable pub fetch_one_by_period : ℕ → Date → Action ReportsDb (Option MonthlyReport)
fetch_one_by_period user_id period_start =
    select (λ d. first (for_period user_id period_start) d.monthly_reports)
