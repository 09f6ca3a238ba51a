-- ===== src/Policy/Timeframe/Laws.antt =====
-- policy/rules.py: the arithmetic of `RuleTimeframe.deadline_from`.
use native.Mathlib.Nat.{div-add-mod, pow-suc}
use comply_roll.Common.{
  Option, none, some, ℕ, zero, suc, ◌+◌, ◌*◌, ◌/◌, ◌%◌, ◌^◌, ◌≤◌, ◌<◌, ◌≡◌, sym, ap, ◌∙◌, arith,
}
use comply_roll.Errors.{ok, >>=-eq-ok}
use comply_roll.Instant.{advance, advance-eq-ok, advance-lt-end_of_time, end_of_time}
use comply_roll.Policy.Calendar.{Zone, add_calendar_months}
use comply_roll.Policy.Timeframe.{
  RuleTimeframe, Amount, TimeframeUnit, deadline_from, deadline_by_unit, elapsed_deadline,
  decimal_timedelta, require_integral, whole,
}

div_exact : (x d : ℕ) → x % d ≡ 0 → x / d * d ≡ x
div_exact x d h = omega (arith, div-add-mod x d)

pow_pos : (n : ℕ) → 1 ≤ 10 ^ n
pow_pos zero = omega arith
pow_pos (suc n) = omega (arith, pow-suc 10 n, pow_pos n)

-- `whole` divides without a remainder.
pub whole_exact :
    (amount : Amount) (scale : ℕ) {n : ℕ}
    → whole amount scale ≡ ok n
    → n * 10 ^ amount.places ≡ amount.coefficient * scale
unfolding whole
whole_exact amount scale h =
    ground (arith, div_exact (amount.coefficient * scale) (10 ^ amount.places))

whole-pos :
    (amount : Amount) (scale : ℕ) {n : ℕ}
    → 1 ≤ amount.coefficient
    → 1 ≤ scale
    → whole amount scale ≡ ok n
    → 1 ≤ n
whole-pos amount scale {n} p q h = go n (whole_exact amount scale h)
  where
    go : (k : ℕ) → k * 10 ^ amount.places ≡ amount.coefficient * scale → 1 ≤ k
    go zero e = absurd (grind arith)
    go (suc k) e = omega arith

-- Seconds in a unit of exact elapsed time.
abbrev pub elapsed_seconds : TimeframeUnit → Option ℕ
elapsed_seconds TimeframeUnit.hours = some 3600
elapsed_seconds TimeframeUnit.days = some 86400
elapsed_seconds TimeframeUnit.weeks = some 604800
elapsed_seconds _ = none

elapsed_deadline_exact :
    (amount : Amount) (start seconds : ℕ) {due : ℕ}
    → elapsed_deadline amount start seconds ≡ ok due
    → (n : ℕ) × (due ≡ start + n)
      × (n * 10 ^ amount.places ≡ amount.coefficient * (seconds * 1000000))
      × (due < end_of_time)
unfolding elapsed_deadline decimal_timedelta
elapsed_deadline_exact amount start seconds {due} h =
    let (n, e, k) = >>=-eq-ok (whole amount (seconds * 1000000)) (λ n. advance start n) h in
    (
      n,
      advance-eq-ok start n k,
      whole_exact amount (seconds * 1000000) e,
      advance-lt-end_of_time start n k,
    )

deadline_by_unit_elapsed :
    (unit : TimeframeUnit) (amount : Amount) (start : ℕ) (calendar : Zone) (seconds : ℕ)
    → elapsed_seconds unit ≡ some seconds
    → deadline_by_unit unit amount start calendar ≡ elapsed_deadline amount start seconds
unfolding deadline_by_unit
deadline_by_unit_elapsed TimeframeUnit.business_days amount start calendar seconds e = cc
deadline_by_unit_elapsed _ amount start calendar seconds e = cc

-- A deadline in hours, days or weeks lies exactly that many of them after its start, whatever the
-- calendar zone, and before the end of the year 9999.
pub deadline_from_exact :
    (t : RuleTimeframe) (start : ℕ) (calendar : Zone) (seconds : ℕ) {due : ℕ}
    → elapsed_seconds t.unit ≡ some seconds
    → deadline_from t start calendar ≡ ok due
    → (n : ℕ) × (due ≡ start + n)
      × (n * 10 ^ t.amount.places ≡ t.amount.coefficient * (seconds * 1000000))
      × (due < end_of_time)
unfolding deadline_from
deadline_from_exact t start calendar seconds u h =
    elapsed_deadline_exact t.amount start seconds
      (sym (deadline_by_unit_elapsed t.unit t.amount start calendar seconds u) ∙ h)

require_integral-whole : (n : ℕ) → require_integral (record { coefficient = n; places = 0 }) ≡ ok n
unfolding require_integral whole
require_integral-whole n = ground arith

-- Where the amount is a whole number, the deadline of that many years is the deadline of twelve
-- times as many months.
pub deadline_from-years :
    (coefficient places start : ℕ) (calendar : Zone) {n : ℕ}
    → require_integral (record { coefficient = coefficient; places = places }) ≡ ok n
    → deadline_from
        (record {
          amount = record { coefficient = coefficient; places = places };
          unit = TimeframeUnit.years;
        })
        start
        calendar
      ≡ deadline_from
          (record {
            amount = record { coefficient = n * 12; places = 0 };
            unit = TimeframeUnit.months;
          })
          start
          calendar
unfolding deadline_from
deadline_from-years coefficient places start calendar {n} h =
    rw (h, require_integral-whole (n * 12)) (ap (add_calendar_months calendar start) (omega arith))

-- The deadline of a positive timeframe in hours, days or weeks lies strictly after its start.
pub deadline_from-lt :
    (t : RuleTimeframe) (start : ℕ) (calendar : Zone) (seconds : ℕ) {due : ℕ}
    → elapsed_seconds t.unit ≡ some seconds
    → 1 ≤ t.amount.coefficient
    → deadline_from t start calendar ≡ ok due
    → start < due
deadline_from-lt t start calendar seconds {due} u p h =
    let (n, e, exact, _) = deadline_from_exact t start calendar seconds u h in
    pos t.unit n e exact u
  where
    grows :
        (n k : ℕ)
        → due ≡ start + n
        → 1 ≤ k
        → n * 10 ^ t.amount.places ≡ t.amount.coefficient * k
        → start < due
    grows zero k e q x = absurd (grind arith)
    grows (suc n) k e q x = omega arith

    pos :
        (unit : TimeframeUnit) (n : ℕ)
        → due ≡ start + n
        → n * 10 ^ t.amount.places ≡ t.amount.coefficient * (seconds * 1000000)
        → elapsed_seconds unit ≡ some seconds
        → start < due
    pos TimeframeUnit.business_days n e x q = cc
    pos _ n e x q = grows n (seconds * 1000000) e (ground arith) x
