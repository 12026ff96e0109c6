-- ===== src/Billing/Reports/Window.antt =====
-- billing/reports.rs: the period of a report is the whole month before.
use mizan_connect.Base.{
  ℕ, ◌+◌, ◌-◌, ◌*◌, ◌%◌, ◌≤◌, ◌<◌, ◌≡◌, refl, ap, ◌∙◌, Bool, false, not, ◌&&◌, ◌||◌, Option, some,
  ◌==◌, if◌then◌else◌, Bool-cases, inl, inr, arith, subst,
}
use mizan_connect.Billing.Reports.{
  Date, Calendar, month_before, first_of_next, previous_month_window, end_of, from_start,
}

abbrev is_leap : ℕ → Bool
is_leap y = y % 4 == 0 && (not (y % 100 == 0) || y % 400 == 0)

-- The length of a month in the Gregorian calendar.
abbrev pub days_in_month : ℕ → ℕ → ℕ
days_in_month y m =
    if m == 2
    then (if is_leap y then 29 else 28)
    else if m == 4 || m == 6 || m == 9 || m == 11
    then 30
    else 31

abbrev pub date : ℕ → ℕ → ℕ → Date
date y m d = record { year = y; month = m; day = d }

-- What the `time` crate promises of the years up to 9999, beyond which `from_calendar_date` fails:
-- the first of a month is a date, and the day before it is the last one of the month before.
pub record IsCalendar (calendar : Calendar) : Type 0 where
  pub first_is_valid :
      (y m : ℕ) → y ≤ 9999 → 1 ≤ m → m ≤ 12 → calendar.from_calendar_date y m 1 ≡ some (date y m 1)
  pub before_first :
      (y m : ℕ)
      → y ≤ 9999
      → 1 ≤ m
      → m < 12
      → calendar.day_before (date y (m + 1) 1) ≡ date y m (days_in_month y m)
  pub before_year : (y : ℕ) → y < 9999 → calendar.day_before (date (y + 1) 1 1) ≡ date y 12 31

module _ (calendar : Calendar) (laws : IsCalendar calendar) where
  abbrev pub window_of : ℕ × ℕ → Option (Date × Date)
  window_of p = some (date p.0 p.1 1, date p.0 p.1 (days_in_month p.0 p.1))

  december :
      (y : ℕ)
      → y < 9999
      → end_of calendar (date y 12 1) (first_of_next calendar (date y 12 1)) ≡ window_of (y, 12)
  december y range =
      ap (end_of calendar (date y 12 1))
        (laws.first_is_valid (y + 1) 1 (omega (arith, range)) (omega arith) (omega arith))
      ∙ ap (λ e. some (date y 12 1, e)) (laws.before_year y range)

  earlier :
      (y m : ℕ)
      → y ≤ 9999
      → 1 ≤ m
      → m < 12
      → end_of calendar (date y m 1) (first_of_next calendar (date y m 1)) ≡ window_of (y, m)
  earlier y m range low high =
      let not_last : (m == 12) ≡ false = ground arith in
      let next : first_of_next calendar (date y m 1) ≡ calendar.from_calendar_date y (m + 1) 1 =
        rw not_last refl in
      ap (end_of calendar (date y m 1))
        (next ∙ laws.first_is_valid y (m + 1) range (omega arith) (omega (arith, high)))
      ∙ ap (λ e. some (date y m 1, e)) (laws.before_first y m range low high)

  month_window :
      (y m : ℕ)
      → 1 ≤ m
      → m ≤ 12
      → y * 12 + m < 120000
      → from_start calendar (calendar.from_calendar_date y m 1) ≡ window_of (y, m)
  month_window y m low high range =
      let in_range : y ≤ 9999 = omega (arith, range, low) in
      ap (from_start calendar) (laws.first_is_valid y m in_range low high)
      ∙ (elim (Bool-cases (m == 12)) [
        | inl e ↦
            let is : 12 ≡ m = ground arith in
            let below : y < 9999 = ground arith in
            subst
              (λ n.
                end_of calendar (date y n 1) (first_of_next calendar (date y n 1))
                ≡ window_of (y, n))
              is (december y below)
        | inr e ↦ earlier y m in_range low (ground arith)
      ])

  -- The window of a day is the month before it, from its first day to its last: its number, counted
  -- in months, is one less than that of the day, for a day of the years 1 to 9999.
  pub previous_month_window_lem :
      (today : Date)
      → 1 ≤ today.year
      → today.year ≤ 9999
      → 1 ≤ today.month
      → today.month ≤ 12
      → (y : ℕ) × (m : ℕ) × (y * 12 + m + 1 ≡ today.year * 12 + today.month)
        × (1 ≤ m)
        × (m ≤ 12)
        × (previous_month_window calendar today ≡ window_of (y, m))
  unfolding previous_month_window
  previous_month_window_lem today year range low high = elim (Bool-cases (today.month == 1)) [
    | inl e ↦
        let is : month_before calendar today ≡ (today.year - 1, 12) = rw e refl in
        (
          today.year - 1,
          12,
          ground arith,
          omega arith,
          omega arith,
          ap (λ (p : ℕ × ℕ). from_start calendar (calendar.from_calendar_date p.0 p.1 1)) is
              ∙ month_window (today.year - 1) 12 (omega arith) (omega arith) (ground arith),
        )
    | inr e ↦
        let is : month_before calendar today ≡ (today.year, today.month - 1) = rw e refl in
        (
          today.year,
          today.month - 1,
          ground arith,
          ground arith,
          ground arith,
          ap (λ (p : ℕ × ℕ). from_start calendar (calendar.from_calendar_date p.0 p.1 1)) is
              ∙ month_window today.year (today.month - 1) (ground arith) (ground arith)
                  (ground arith),
        )
  ]
