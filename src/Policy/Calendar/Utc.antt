-- ===== src/Policy/Calendar/Utc.antt =====
-- The zone `UTC`: the proleptic Gregorian calendar of `datetime`.
use comply_roll.Common.{
  ℕ, zero, suc, ◌+◌, ◌-◌, ◌*◌, ◌/◌, ◌%◌, ◌≡◌, refl, ◌||◌, false, ltb, nat_eqb, if◌then◌else◌,
}
use comply_roll.Errors.{Result, ok}
use comply_roll.Instant.{day}
use comply_roll.Policy.Calendar.{LocalTime, Zone, days_in_month, add_calendar_months, shift_months}

-- Walks the months of a year from `month`, with `left` days still to place.
month_and_day : ℕ → ℕ → ℕ → ℕ → ℕ × ℕ
month_and_day zero year month left = (month, left + 1)
month_and_day (suc rest) year month left =
    let later = month_and_day rest year (month + 1) (left - days_in_month year month) in
    if ltb left (days_in_month year month) then (month, left + 1) else later

-- The year that a day number falls in, and the day of that year from 0.
year_and_day : ℕ → ℕ × ℕ
year_and_day n =
    let r400 = n % 146097 in
    let n100 = r400 / 36524 in
    let r100 = r400 % 36524 in
    let n4 = r100 / 1461 in
    let r4 = r100 % 1461 in
    let n1 = r4 / 365 in
    let year = n / 146097 * 400 + n100 * 100 + n4 * 4 + n1 + 1 in
    if nat_eqb n1 4 || nat_eqb n100 4 then (year - 1, 365) else (year, r4 % 365)

days_before_year : ℕ → ℕ
days_before_year year = let y = year - 1 in y * 365 + y / 4 - y / 100 + y / 400

-- Days of the year before a month.
days_before_month : ℕ → ℕ → ℕ
days_before_month year zero = 0
days_before_month year (suc zero) = 0
days_before_month year (suc (suc m)) = days_before_month year (suc m) + days_in_month year (suc m)

utc_to_local : ℕ → Result LocalTime
unfolding year_and_day month_and_day
utc_to_local at =
    let (year, left) = year_and_day (at / day) in
    let (month, date) = month_and_day 11 year 1 left in
    ok (record { year = year; month = month; day = date; time = at % day; fold = false })

utc_from_local : LocalTime → Result ℕ
unfolding days_before_year days_before_month
utc_from_local local = ok (
    (days_before_year local.year + days_before_month local.year local.month + (local.day - 1)) * day
    + local.time)

unfoldable pub utc_zone : Zone
unfolding utc_to_local utc_from_local
utc_zone = record { to_local = utc_to_local; from_local = utc_from_local }

-- 2026-01-31 and one month is 2026-02-28; 2024-01-31 and one month is 2024-02-29.
month_end :
    utc_to_local (739646 * day + 5)
    ≡ ok (record { year = 2026; month = 1; day = 31; time = 5; fold = false })
unfolding utc_to_local days_in_month
month_end = refl

month_end_shifted : add_calendar_months utc_zone (739646 * day + 5) 1 ≡ ok (739674 * day + 5)
unfolding utc_zone days_in_month add_calendar_months shift_months
month_end_shifted = refl
