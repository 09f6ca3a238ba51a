-- ===== src/CaseOrder/Tests.antt =====
-- An attested case, evaluated before and after the attested instant.
use comply_roll.Common.{◌≡◌, refl, Option, some, none, [], ◌∷◌}
use comply_roll.CaseOrder.{case_order_diagnostic}
use comply_roll.CaseOrder.Returns.{case_order_diagnostic_lem}
use comply_roll.Checks.Order.{OrderDiagnostic}
use comply_roll.Correlation.{VulnerabilityGroup}
use comply_roll.Errors.{ok}
use comply_roll.Instant.{Datetime, Offset, utc, to_utc}

abbrev untimed : VulnerabilityGroup
untimed = record {
  tracking_id = "case-1";
  source_type = "stig";
  source_record_id = "V-1";
  context_key = "";
  observations = [];
  resources = [];
  source_identifiers = [];
  title = "A rule";
  description = "";
  earliest_observed_at = none;
  detection_sources = [];
  untimestamped_observation_ids = "obs-1" ∷ [];
}

-- Attested at an instant before the year 1 of UTC.
abbrev before_time : Datetime
before_time = record { face = 32400000000; offset = Offset.ahead 36000000000 }

utc_5 : to_utc (utc 5) ≡ ok 5
unfolding to_utc
utc_5 = refl

case_order_diagnostic_lem_example :
    (found : Option OrderDiagnostic) × (case_order_diagnostic "case-1" "case-1" untimed
        (utc 5)
        (some before_time)
        none
        none
      ≡ ok found)
case_order_diagnostic_lem_example =
    case_order_diagnostic_lem "case-1" untimed (utc 5) 5 (some before_time) none none utc_5
