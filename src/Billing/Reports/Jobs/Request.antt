-- ===== src/Billing/Reports/Jobs/Request.antt =====
-- billing/reports.rs: `POST /v1/reports/monthly`, once and again.
use mizan_connect.Base.{
  ℕ, ◌≡◌, refl, ap, ◌∙◌, Bool, true, Option, none, some, List, [], ◌∷◌, first, exists, arith,
}
use mizan_connect.Error.{AppError, ok, ok_or}
use mizan_connect.Exec.{World, pure, lift, statement, select, ◌>>=◌}
use mizan_connect.Exec.Laws.{lift_then, statement_then, select_then}
use mizan_connect.Billing.Reports.{
  Date, Calendar, previous_month_window, MonthlyReport, ReportsDb, for_period, pending_report,
  enqueue_in, enqueue_pending, fetch_one_by_period,
}
use mizan_connect.Billing.Reports.Jobs.{
  code_of, vanished, panicked, request_for, request_monthly_report,
}

some_ok : {A : Type 0} (e : AppError) (o : Option A) (a : A) → ok_or e o ≡ ok a → o ≡ some a
some_ok e none a h = absurd (cc)
some_ok e (some b) a h = ap some (cc h)

first_exists :
    (p : MonthlyReport → Bool) (rows : List MonthlyReport) (r : MonthlyReport)
    → first p rows ≡ some r
    → exists p rows ≡ true
first_exists p [] r h = absurd (cc)
first_exists p (s ∷ rows) r h = ground (arith, first_exists p rows r)

module _ (calendar : Calendar) (today : Date) (user_id : ℕ) where
  request_ok :
      (id now : ℕ) (w : World ReportsDb) (code : ℕ) (row : MonthlyReport)
      → (request_monthly_report calendar today id now user_id w).0 ≡ ok (code, row)
      → (window : Date × Date) × (previous_month_window calendar today ≡ some window)
        × (first
              (for_period user_id window.0)
              (request_monthly_report calendar today id now user_id w).1.db.monthly_reports
            ≡ some row)
  unfolding request_monthly_report enqueue_pending fetch_one_by_period
  request_ok id now w code row h =
      let answer = λ (inserted : Bool).
        λ (r : MonthlyReport). pure {D = ReportsDb} {A = ℕ × MonthlyReport} (code_of inserted, r) in
      let find = λ (window : Date × Date).
        λ (d : ReportsDb). first (for_period user_id window.0) d.monthly_reports in
      let need = λ (inserted : Bool).
        λ (found : Option MonthlyReport). lift (ok_or vanished found) >>= answer inserted in
      let read =
        λ (window : Date × Date). λ (inserted : Bool). select (find window) >>= need inserted in
      let (window, is, e1, h1) =
        lift_then (ok_or panicked (previous_month_window calendar today))
          (request_for id now user_id) w (code, row) h in
      let (inserted, w2, _, _, e2, h2) =
        statement_then (enqueue_in (pending_report id now user_id window.0 window.1)) (read window)
          w (code, row) h1 in
      let (w3, same, e3, h3) = select_then (find window) (need inserted) w2 (code, row) h2 in
      let (r, found, e4, h4) =
        lift_then (ok_or vanished (find window w2.db)) (answer inserted) w3 (code, row) h3 in
      let row_is : r ≡ row = cc h4 in
      (
        window,
        some_ok panicked (previous_month_window calendar today) window is,
        ap (λ x. find window x.1.db) (e1 ∙ e2 ∙ e3 ∙ e4)
            ∙ ap (find window) same
            ∙ some_ok vanished (find window w2.db) r found
            ∙ ap some row_is,
      )

  request_again :
      (id now : ℕ) (window : Date × Date) (d : ReportsDb) (row : MonthlyReport)
      → previous_month_window calendar today ≡ some window
      → first (for_period user_id window.0) d.monthly_reports ≡ some row
      → request_monthly_report calendar today id now user_id (record { db = d; faults = [] })
        ≡ (ok (200, row), record { db = d; faults = [] })
  unfolding request_monthly_report enqueue_pending fetch_one_by_period select statement
  request_again id now window d row is found =
      let here = first_exists (for_period user_id window.0) d.monthly_reports row found in
      rw is (rw here (rw found refl))

-- A report is requested once: when a request has been answered with a row, a later one for the same
-- month, with no fault and that queue, is answered with 200 and that row, in whatever status it is,
-- and changes nothing.
pub request_monthly_report_once :
    (calendar : Calendar) (today today2 : Date) (user_id id now id2 now2 : ℕ) (w : World ReportsDb)
    (code : ℕ) (row : MonthlyReport) (d : ReportsDb)
    → (request_monthly_report calendar today id now user_id w).0 ≡ ok (code, row)
    → previous_month_window calendar today2 ≡ previous_month_window calendar today
    → d.monthly_reports
      ≡ (request_monthly_report calendar today id now user_id w).1.db.monthly_reports
    → request_monthly_report calendar today2 id2 now2 user_id (record { db = d; faults = [] })
      ≡ (ok (200, row), record { db = d; faults = [] })
request_monthly_report_once calendar today today2 user_id id now id2 now2 w code row d h month
      same =
    let (window, is, found) = request_ok calendar today user_id id now w code row h in
    request_again calendar today2 user_id id2 now2 window d row (month ∙ is)
      (ap (first (for_period user_id window.0)) same ∙ found)
