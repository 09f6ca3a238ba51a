-- ===== src/Policy/Calendar.antt =====
-- policy/rules.py: `_add_calendar_months` and `_resolve_calendar_zone`. The time zone database is
-- not part of the repository: a zone is a pair of conversions, and the name lookup a parameter.
pub mod Utc
pub mod Clamping
use Prim.Native.Nat.{min}
use comply_roll.Common.{
  ℕ, ◌+◌, ◌-◌, ◌*◌, ◌/◌, ◌%◌, Bool, true, false, not, ◌&&◌, ◌||◌, String, Option, none, some, leb,
  ltb, nat_eqb, ◌==◌, if◌then◌else◌,
}
use comply_roll.Errors.{Result, ok, err, value_error, ◌>>=◌}
use comply_roll.Models.Text.{is_blank}

-- A clock face taken apart: the date, the microseconds since its midnight, and which of two it is
-- where the zone repeats it.
pub record LocalTime : Type 0 where
  pub year : ℕ
  pub month : ℕ
  pub day : ℕ
  pub time : ℕ
  pub fold : Bool

-- A `tzinfo`: what `astimezone` makes of an instant, and of a local time on the way back.
pub record Zone : Type 0 where
  pub to_local : ℕ → Result LocalTime
  pub from_local : LocalTime → Result ℕ

abbrev pub is_leap : ℕ → Bool
is_leap year = nat_eqb (year % 4) 0 && (not (nat_eqb (year % 100) 0) || nat_eqb (year % 400) 0)

-- `calendar.monthrange(year, month)[1]`
unfoldable pub days_in_month : ℕ → ℕ → ℕ
days_in_month year month =
    if nat_eqb month 2
    then (if is_leap year then 29 else 28)
    else if nat_eqb month 4 || nat_eqb month 6 || nat_eqb month 9 || nat_eqb month 11
    then 30
    else 31

-- `local.replace(year=…, month=…, day=…)`: `datetime` has the years 1 to 9999.
replace_date : LocalTime → ℕ → ℕ → ℕ → Result LocalTime
replace_date local year month day =
    if leb 1 year && leb year 9999
    then ok (record local { year = year; month = month; day = day })
    else err (value_error "year")

unfoldable pub shift_months : LocalTime → ℕ → Result LocalTime
unfolding replace_date
shift_months local months =
    let month_index = local.year * 12 + (local.month - 1) + months in
    let year = month_index / 12 in
    let month = month_index % 12 + 1 in
    replace_date local year month (min local.day (days_in_month year month))

unfoldable pub add_calendar_months : Zone → ℕ → ℕ → Result ℕ
add_calendar_months zone value months = do
  local ← zone.to_local value
  shifted ← shift_months local months
  zone.from_local shifted
