-- ===== src/Policy/Timeframe.antt =====
-- policy/rules.py: `RuleTimeframe` and its deadline. A `Decimal` is its coefficient and its number
-- of places; products are exact, as they are in the code up to 28 significant digits.
pub mod Laws
use comply_roll.Common.{
  ℕ, ◌+◌, ◌*◌, ◌/◌, ◌%◌, ◌^◌, Bool, true, false, not, nat_eqb, leb, if◌then◌else◌,
}
use comply_roll.Errors.{Result, ok, err, value_error, unsupported_timeframe, refuse_if, ◌>>=◌, ◌>>◌}
use comply_roll.Instant.{advance}
use comply_roll.Policy.Calendar.{Zone, add_calendar_months}

pub data TimeframeUnit : Type 0 where
  business_days days hours weeks months years : TimeframeUnit

pub record Amount : Type 0 where
  pub coefficient : ℕ
  pub places : ℕ

pub record RuleTimeframe : Type 0 where
  pub amount : Amount
  pub unit : TimeframeUnit

-- `RuleTimeframe.__post_init__`
unfoldable pub check_timeframe : RuleTimeframe → Result RuleTimeframe
check_timeframe t = do refuse_if (leb t.amount.coefficient 0) (value_error "timeframe amount"); ok t

-- `value * scale`, where that is a whole number
unfoldable pub whole : Amount → ℕ → Result ℕ
whole amount scale =
    if nat_eqb (amount.coefficient * scale % 10 ^ amount.places) 0
    then ok (amount.coefficient * scale / 10 ^ amount.places)
    else err (unsupported_timeframe "precision")

-- `_require_integral`
unfoldable pub require_integral : Amount → Result ℕ
require_integral amount = whole amount 1

-- `_decimal_timedelta`, in microseconds
unfoldable pub decimal_timedelta : Amount → ℕ → Result ℕ
decimal_timedelta amount seconds_per_unit = whole amount (seconds_per_unit * 1000000)

elapsed_deadline : Amount → ℕ → ℕ → Result ℕ
elapsed_deadline amount start seconds_per_unit = do
  elapsed ← decimal_timedelta amount seconds_per_unit
  advance start elapsed

calendar_deadline : Amount → ℕ → Zone → ℕ → Result ℕ
calendar_deadline amount start calendar months_per_unit = do
  count ← require_integral amount
  add_calendar_months calendar start (count * months_per_unit)

deadline_by_unit : TimeframeUnit → Amount → ℕ → Zone → Result ℕ
unfolding elapsed_deadline calendar_deadline
deadline_by_unit TimeframeUnit.business_days amount start calendar =
    err (unsupported_timeframe "business days")
deadline_by_unit TimeframeUnit.hours amount start calendar = elapsed_deadline amount start 3600
deadline_by_unit TimeframeUnit.days amount start calendar = elapsed_deadline amount start 86400
deadline_by_unit TimeframeUnit.weeks amount start calendar = elapsed_deadline amount start 604800
deadline_by_unit TimeframeUnit.months amount start calendar =
    calendar_deadline amount start calendar 1
deadline_by_unit TimeframeUnit.years amount start calendar =
    calendar_deadline amount start calendar 12

-- `RuleTimeframe.deadline_from`, from an instant
unfoldable pub deadline_from : RuleTimeframe → ℕ → Zone → Result ℕ
unfolding deadline_by_unit
deadline_from t start calendar = deadline_by_unit t.unit t.amount start calendar
