-- ===== src/Policy/Tests.antt =====
-- Deadlines at dates of the calendar.
use Prim.Native.Nat.{min}
use comply_roll.Common.{none, true, false, ℕ, ◌+◌, ◌*◌, ◌^◌, ◌<◌, ◌≡◌, refl, some, [], ◌∷◌, arith}
use comply_roll.Errors.{ok}
use comply_roll.Instant.{end_of_time, advance}
use comply_roll.Policy.{
  ResponseContext, CertificationClass, CertificationType, CertificationPath, PolicyDeadline,
  RuleForce, SelectedPolicy, SelectedRule,
}
use comply_roll.Policy.Calendar.{LocalTime, days_in_month, shift_months}
use comply_roll.Policy.Calendar.Clamping.{
  IsDate, month_number, shift_months-IsDate, shift_months-shift_months,
}
use comply_roll.Policy.Calendar.Utc.{utc_zone}
use comply_roll.Policy.Deadlines.{
  response_deadline, response_timeframe, response_context, deadline_for_rule, find_rule,
  deadline_under,
}
use comply_roll.Models.{PainRating}
use comply_roll.Policy.Deadlines.Response.{IsResponse, context_for, response_deadline_lem}
use comply_roll.Policy.Timeframe.{
  RuleTimeframe, TimeframeUnit, deadline_from, decimal_timedelta, whole, require_integral,
}
use comply_roll.Policy.Timeframe.Laws.{deadline_from_exact, deadline_from-lt, deadline_from-years}

abbrev on : ℕ → ℕ → ℕ → LocalTime
on year month date = record { year = year; month = month; day = date; time = 5; fold = false }

january_31 : shift_months (on 2026 1 31) 1 ≡ ok (on 2026 2 28)
unfolding shift_months days_in_month
january_31 = refl

january_31-IsDate : IsDate (on 2026 1 31)
unfolding days_in_month
january_31-IsDate = record {
  some_month = omega arith;
  last_month = omega arith;
  some_day = omega arith;
  last_day = omega arith;
}

shift_months-IsDate_example :
    IsDate (on 2026 2 28)
    × (month_number (on 2026 2 28) ≡ month_number (on 2026 1 31) + 1)
    × (28 ≡ min 31 (days_in_month 2026 2))
    × ((on 2026 2 28).time ≡ (on 2026 1 31).time)
    × ((on 2026 2 28).fold ≡ (on 2026 1 31).fold)
shift_months-IsDate_example =
    shift_months-IsDate (on 2026 1 31) 1 {shifted = on 2026 2 28} january_31-IsDate january_31

december_15-IsDate : IsDate (on 2026 12 15)
unfolding days_in_month
december_15-IsDate = record {
  some_month = omega arith;
  last_month = omega arith;
  some_day = omega arith;
  last_day = omega arith;
}

december_15 : shift_months (on 2026 12 15) 2 ≡ ok (on 2027 2 15)
unfolding shift_months days_in_month
december_15 = refl

february_15 : shift_months (on 2027 2 15) 3 ≡ ok (on 2027 5 15)
unfolding shift_months days_in_month
february_15 = refl

shift_months-shift_months_example : shift_months (on 2026 12 15) (2 + 3) ≡ ok (on 2027 5 15)
shift_months-shift_months_example =
    shift_months-shift_months (on 2026 12 15) 2 3 {middle = on 2027 2 15} {shifted = on 2027 5 15}
      december_15-IsDate (omega arith) december_15 february_15

-- 1.5 days
abbrev day_and_half : RuleTimeframe
day_and_half = record {
  amount = record { coefficient = 15; places = 1 };
  unit = TimeframeUnit.days;
}

due_then : deadline_from day_and_half 1000 utc_zone ≡ ok 129600001000
unfolding deadline_from decimal_timedelta whole advance
due_then = refl

deadline_from_exact_example :
    (n : ℕ) × (129600001000 ≡ 1000 + n)
    × (n * 10 ^ 1 ≡ 15 * (86400 * 1000000))
    × (129600001000 < end_of_time)
deadline_from_exact_example =
    deadline_from_exact day_and_half 1000 utc_zone 86400 {due = 129600001000} refl due_then

deadline_from-lt_example : 1000 < 129600001000
deadline_from-lt_example =
    deadline_from-lt day_and_half 1000 utc_zone 86400 {due = 129600001000} refl (omega arith)
      due_then

two_years : require_integral (record { coefficient = 2; places = 0 }) ≡ ok 2
unfolding require_integral whole
two_years = refl

deadline_from-years_example :
    deadline_from
      (record { amount = record { coefficient = 2; places = 0 }; unit = TimeframeUnit.years })
      1000
      utc_zone
    ≡ deadline_from
        (record { amount = record { coefficient = 24; places = 0 }; unit = TimeframeUnit.months })
        1000
        utc_zone
deadline_from-years_example = deadline_from-years 2 0 1000 utc_zone {n = 2} two_years

abbrev evaluation : SelectedRule
evaluation = record {
  rule_id = "VER-TFR-EVU";
  document_id = "VER";
  subset_id = "TFR";
  source_scope = "all";
  name = "Evaluation";
  statement = "Evaluate.";
  force = RuleForce.should;
  timeframe = some day_and_half;
  pain_timeframes = [];
}

abbrev policy : SelectedPolicy
policy = record {
  profile = record {
    certification_class = CertificationClass.c;
    certification_type = CertificationType.twenty_x;
    certification_path = CertificationPath.program;
    affected_party = "Providers";
    calendar_timezone = "UTC";
    calendar_zone = utc_zone;
  };
  provenance = record {
    repository = "FedRAMP/rules";
    commit = "c0ffee";
    dataset_version = "1";
    dataset_last_updated = "2026-06-24";
    dataset_sha256 = "00";
  };
  rules = evaluation ∷ [];
}

abbrev deadline : PolicyDeadline
deadline = record {
  rule_id = "VER-TFR-EVU";
  rule_name = "Evaluation";
  force = RuleForce.should;
  start_at = 1000;
  due_at = 129600001000;
  timeframe = day_and_half;
  profile = policy.profile;
  provenance = policy.provenance;
  description = "";
}

evaluation_due : deadline_for_rule policy "VER-TFR-EVU" 1000 ≡ ok deadline
unfolding deadline_for_rule find_rule deadline_under deadline_from decimal_timedelta whole advance
evaluation_due = refl

abbrev response : SelectedRule
response = record {
  rule_id = "VDR-TFR-PVR";
  document_id = "VDR";
  subset_id = "TFR";
  source_scope = "all";
  name = "Response";
  statement = "Mitigate.";
  force = RuleForce.should;
  timeframe = none;
  pain_timeframes =
      record {
        pain = PainRating.n4;
        context = ResponseContext.irv_lev;
        timeframe = day_and_half;
        description = "partially mitigate";
      }
      ∷ [];
}

abbrev responding : SelectedPolicy
responding = record policy { rules = response ∷ [] }

abbrev response_due : PolicyDeadline
response_due = record {
  rule_id = "VDR-TFR-PVR";
  rule_name = "Response";
  force = RuleForce.should;
  start_at = 1000;
  due_at = 129600001000;
  timeframe = day_and_half;
  profile = policy.profile;
  provenance = policy.provenance;
  description = "partially mitigate";
}

responds : response_deadline responding 1000 PainRating.n4 true true ≡ ok (some response_due)
unfolding response_deadline find_rule response_timeframe response_context deadline_under
    deadline_from decimal_timedelta whole advance
responds = refl

response_deadline_lem_example :
    (rule : SelectedRule) × (find_rule responding.rules "VDR-TFR-PVR" ≡ ok rule)
    × (rule.rule_id ≡ "VDR-TFR-PVR")
    × IsResponse responding rule 1000 PainRating.n4 (context_for true true) (some response_due)
response_deadline_lem_example =
    response_deadline_lem responding 1000 PainRating.n4 true true (some response_due) responds
