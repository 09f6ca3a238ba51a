-- ===== src/Policy/Calendar/Clamping.antt =====
-- policy/rules.py: dates under `_add_calendar_months`.
use Prim.Native.Nat.{min}
use comply_roll.Common.{ℕ, ◌+◌, ◌-◌, ◌*◌, ◌/◌, ◌%◌, ◌≤◌, ◌≡◌, arith}
use comply_roll.Errors.{ok}
use comply_roll.Policy.Calendar.{LocalTime, days_in_month, shift_months}

pub record IsDate (local : LocalTime) : Type 0 where
  pub some_month : 1 ≤ local.month
  pub last_month : local.month ≤ 12
  pub some_day : 1 ≤ local.day
  pub last_day : local.day ≤ days_in_month local.year local.month

abbrev pub month_number : LocalTime → ℕ
month_number local = local.year * 12 + (local.month - 1)

pub days_in_month_bounds :
    (year month : ℕ) → (28 ≤ days_in_month year month) × (days_in_month year month ≤ 31)
unfolding days_in_month
days_in_month_bounds year month = ground arith

-- Adding months to a date gives a date: that many months later by the count of months, at the
-- same time of day and fold, on the same day of the month or, in a shorter month, on its last day.
pub shift_months-IsDate :
    (local : LocalTime) (months : ℕ) {shifted : LocalTime}
    → IsDate local
    → shift_months local months ≡ ok shifted
    → IsDate shifted
      × (month_number shifted ≡ month_number local + months)
      × (shifted.day ≡ min local.day (days_in_month shifted.year shifted.month))
      × (shifted.time ≡ local.time)
      × (shifted.fold ≡ local.fold)
unfolding shift_months
shift_months-IsDate local months v h =
    let m = month_number local + months in
    ground (arith, days_in_month_bounds (m / 12) (m % 12 + 1))

-- Where no month is too short for the day, months add up.
pub shift_months-shift_months :
    (local : LocalTime) (a b : ℕ) {middle shifted : LocalTime}
    → IsDate local
    → local.day ≤ 28
    → shift_months local a ≡ ok middle
    → shift_months middle b ≡ ok shifted
    → shift_months local (a + b) ≡ ok shifted
unfolding shift_months
shift_months-shift_months local a b {middle} {shifted} v small h k =
    let m = month_number local + a in
    let n = month_number local + (a + b) in
    ground (
      arith,
      days_in_month_bounds (m / 12) (m % 12 + 1),
      days_in_month_bounds (n / 12) (n % 12 + 1),
      days_in_month_bounds shifted.year shifted.month,
      days_in_month_bounds middle.year middle.month,
    )
