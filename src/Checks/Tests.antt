-- ===== src/Checks/Tests.antt =====
-- Clocks that compute and that do not, and two claims on one tracking id.
use comply_roll.Common.{ℕ, ◌≡◌, ◌≢◌, ◌↔◌, ◌⊎◌, refl, true, String, Option, some, none, [], ◌∷◌, All}
use comply_roll.Checks.{
  EvaluatedClock, clock_deadlines, policy_problem, deadline_problem, catching, clock_problem,
  no_utc_instant, resolve_detection_time, detection_clock, DetectionAttestation, instant_problem,
  observed_detection, attested_detection, for_tracking_id, attested_for, or_default,
}
use comply_roll.Policy.{
  SelectedPolicy, SelectedRule, RuleForce, ResponseContext, CertificationClass, CertificationType,
  CertificationPath,
}
use comply_roll.Policy.Calendar.Utc.{utc_zone}
use comply_roll.Policy.Timeframe.{
  RuleTimeframe, TimeframeUnit, deadline_from, decimal_timedelta, whole,
}
use comply_roll.Policy.Deadlines.{
  response_deadline, acceptance_deadline, deadline_for_rule, find_rule, response_timeframe,
  response_context, deadline_under,
}
use comply_roll.Models.{PainRating}
use comply_roll.Checks.Clocks.{HasRoom, IsTimed, clock_problem_lem, resolve_detection_time_lem}
use comply_roll.Checks.Collisions.{
  TrackingIdClaim, tracking_id_collisions, collisions_from, holder, Apart,
  tracking_id_collisions_lem,
}
use comply_roll.Checks.Order.{
  OrderDiagnostic, evaluation_order_diagnostic, evaluation_order_diagnostic_lem, level_of,
  level_for,
}
use comply_roll.Correlation.{VulnerabilityGroup}
use comply_roll.Errors.{ok}
use comply_roll.Instant.{Datetime, Offset, utc, to_utc, advance}

-- Nine o'clock of the first day of year 1, ten hours ahead of UTC.
abbrev before_time : Datetime
before_time = record { face = 32400000000; offset = Offset.ahead 36000000000 }

out_of_range : clock_problem before_time [] none ≡ ok (some no_utc_instant)
unfolding clock_problem instant_problem to_utc
out_of_range = refl

-- Half a day to accept and one to mitigate.
abbrev half_day : RuleTimeframe
half_day = record { amount = record { coefficient = 5; places = 1 }; unit = TimeframeUnit.days }

abbrev rule : String → Option RuleTimeframe → SelectedRule
rule rule_id timeframe = record {
  rule_id = rule_id;
  document_id = "VDR";
  subset_id = "TFR";
  source_scope = "all";
  name = rule_id;
  statement = rule_id;
  force = RuleForce.should;
  timeframe = timeframe;
  pain_timeframes =
      record {
        pain = PainRating.n4;
        context = ResponseContext.irv_lev;
        timeframe = half_day;
        description = "mitigate";
      }
      ∷ [];
}

abbrev policy : SelectedPolicy
policy = record {
  profile = record {
    certification_class = CertificationClass.c;
    certification_type = CertificationType.twenty_x;
    certification_path = CertificationPath.program;
    affected_party = "Providers";
    calendar_timezone = "UTC";
    calendar_zone = utc_zone;
  };
  provenance = record {
    repository = "FedRAMP/rules";
    commit = "c0ffee";
    dataset_version = "1";
    dataset_last_updated = "2026-06-24";
    dataset_sha256 = "00";
  };
  rules = rule "VDR-TFR-PVR" none ∷ rule "VER-TFR-MAV" (some half_day) ∷ [];
}

abbrev evaluated : EvaluatedClock
evaluated = record {
  completed_at = utc 1000;
  pain = PainRating.n4;
  is_internet_reachable = true;
  is_likely_exploitable = true;
}

no_problem : clock_problem (utc 1000) (policy ∷ []) (some evaluated) ≡ ok none
unfolding clock_problem policy_problem clock_deadlines deadline_problem catching instant_problem
    to_utc response_deadline acceptance_deadline deadline_for_rule find_rule response_timeframe
    response_context deadline_under deadline_from decimal_timedelta whole advance
no_problem = refl

clock_problem_lem_example : (clock_problem (utc 1000) (policy ∷ []) (some evaluated) ≡ ok none) ↔ (
    (instant : ℕ) × (to_utc (utc 1000) ≡ ok instant)
    × All (HasRoom instant (some evaluated)) (policy ∷ []))
clock_problem_lem_example = clock_problem_lem (utc 1000) (policy ∷ []) (some evaluated)

abbrev untimed : VulnerabilityGroup
untimed = record {
  tracking_id = "case-1";
  source_type = "stig";
  source_record_id = "V-1";
  context_key = "";
  observations = [];
  resources = [];
  source_identifiers = [];
  title = "A rule";
  description = "";
  earliest_observed_at = none;
  detection_sources = [];
  untimestamped_observation_ids = "obs-1" ∷ [];
}

abbrev attestation : DetectionAttestation
attestation = record { default = some (utc 7); by_tracking_id = ("case-1", utc 9) ∷ [] }

attested : resolve_detection_time untimed attestation ≡ ok (some 9, "attestation")
unfolding resolve_detection_time observed_detection attested_detection for_tracking_id attested_for
    or_default to_utc
attested = refl

abbrev at_9 : Option ℕ
at_9 = some 9

abbrev attested_source : String
attested_source = "attestation"

resolve_detection_time_lem_example :
    (((detection_clock untimed attestation ≡ none) × (at_9 ≡ none) × (attested_source ≡ "missing"))
      ⊎ ((clock : Datetime) × (detection_clock untimed attestation ≡ some clock)
          × IsTimed clock at_9 attested_source))
    × ((attested_source ≢ "attestation") ⊎ (untimed.earliest_observed_at ≡ none))
resolve_detection_time_lem_example =
    resolve_detection_time_lem untimed attestation (some 9) "attestation" attested

utc_5 : to_utc (utc 5) ≡ ok 5
unfolding to_utc
utc_5 = refl

utc_9 : to_utc (utc 9) ≡ ok 9
unfolding to_utc
utc_9 = refl

evaluation_order_diagnostic_lem_example :
    (found : Option OrderDiagnostic) × (evaluation_order_diagnostic "case-1" "evaluations[0]"
        (utc 9)
        "system"
        (utc 5)
        none
      ≡ ok found)
    × (level_of found ≡ level_for 9 5 "system")
evaluation_order_diagnostic_lem_example =
    evaluation_order_diagnostic_lem "case-1" "evaluations[0]" (utc 9) "system" (utc 5) none 9 5
      utc_9 utc_5

abbrev claim : ℕ → String → TrackingIdClaim
claim object tracking_id = record {
  object = object;
  tracking_id = tracking_id;
  original_tracking_id = "case-1";
  evaluation_location = "evaluations[0]";
}

collide :
    tracking_id_collisions (claim 1 "A" ∷ claim 2 "B" ∷ claim 3 "A" ∷ [])
    ≡ (claim 1 "A", claim 3 "A") ∷ []
unfolding tracking_id_collisions collisions_from holder
collide = refl

tracking_id_collisions_lem_example :
    (tracking_id_collisions (claim 1 "A" ∷ claim 2 "B" ∷ []) ≡ [])
    ↔ Apart (claim 1 "A" ∷ claim 2 "B" ∷ [])
tracking_id_collisions_lem_example = tracking_id_collisions_lem (claim 1 "A" ∷ claim 2 "B" ∷ [])
