-- ===== src/Gaps/Tests.antt =====
-- Two windows of one host, whose entry names a job.
use comply_roll.Common.{ℕ, ◌+◌, ◌≡◌, refl, true, false, String, Option, some, none, []}
use comply_roll.Coverage.Clock.{subject}
use comply_roll.Coverage.Window.{CoverageWindow, AnchorKind}
use comply_roll.Errors.{ok, err, value_error}
use comply_roll.Gaps.{coverage_gap_context_key, job_of, is_foreign, form_of, job_key, resource_key}
use comply_roll.Gaps.Keys.{IsShared, coverage_gap_context_key_lem}
use comply_roll.Inventory.{InformationResource, Drift, has_colon}
use comply_roll.Policy.{RuleForce, CertificationClass, CertificationPath, CertificationType}
use comply_roll.Policy.Calendar.Utc.{utc_zone}
use comply_roll.Policy.Timeframe.{TimeframeUnit}

abbrev window : String → ℕ → CoverageWindow
window host start = record {
  key = record {
    rule_id = "VDR-TFR-MVX";
    resource = some (record { resource_id = host; resource_type = "host" });
    sample_group = none;
  };
  anchor = AnchorKind.declared;
  deadline = record {
    rule_id = "VDR-TFR-MVX";
    rule_name = "Machine verification";
    force = RuleForce.must;
    start_at = start;
    due_at = start + 1000;
    timeframe = record {
      amount = record { coefficient = 3; places = 0 };
      unit = TimeframeUnit.days;
    };
    profile = record {
      certification_class = CertificationClass.b;
      certification_type = CertificationType.twenty_x;
      certification_path = CertificationPath.program;
      affected_party = "Providers";
      calendar_timezone = "UTC";
      calendar_zone = utc_zone;
    };
    provenance = record {
      repository = "FedRAMP/rules";
      commit = "c0ffee";
      dataset_version = "1";
      dataset_last_updated = "2026-06-24";
      dataset_sha256 = "00";
    };
    description = "";
  };
  resumed_at = none;
  evidence = none;
  stand_in = none;
}

abbrev host_of : String → Option String → InformationResource
host_of host job = record {
  resource_type = "host";
  resource_id = host;
  machine_based = true;
  expected_since = 1000;
  drift_likely = some Drift.likely;
  sample_group = none;
  job = job;
  decommissioned_at = none;
  aliases = [];
  verifications = [];
}

nightly_key :
    coverage_gap_context_key (window "web-1" 5) (some (host_of "web-1" (some "nightly")))
    ≡ ok "VDR-TFR-MVX:job:nightly"
unfolding coverage_gap_context_key is_foreign job_of form_of job_key subject
nightly_key = refl

other_key :
    coverage_gap_context_key (window "web-2" 7) (some (host_of "web-2" (some "nightly")))
    ≡ ok "VDR-TFR-MVX:job:nightly"
unfolding coverage_gap_context_key is_foreign job_of form_of job_key subject
other_key = refl

own_key :
    coverage_gap_context_key (window "web-1" 5) (some (host_of "web-1" none))
    ≡ ok "VDR-TFR-MVX:resource:host:web-1"
unfolding coverage_gap_context_key is_foreign job_of form_of resource_key subject
own_key = refl

foreign :
    coverage_gap_context_key (window "web-1" 5) (some (host_of "web-2" none))
    ≡ err (value_error "entry")
unfolding coverage_gap_context_key is_foreign subject
foreign = refl

plain : (host : String) (at : ℕ) → has_colon (subject (window host at).key).resource_type ≡ false
unfolding has_colon subject
plain host at = refl

coverage_gap_context_key_lem_example :
    IsShared
      (job_of (some (host_of "web-1" (some "nightly"))))
      (subject (window "web-1" 5).key)
      (job_of (some (host_of "web-2" (some "nightly"))))
      (subject (window "web-2" 7).key)
coverage_gap_context_key_lem_example =
    coverage_gap_context_key_lem (window "web-1" 5) (window "web-2" 7)
      (some (host_of "web-1" (some "nightly"))) (some (host_of "web-2" (some "nightly")))
      "VDR-TFR-MVX:job:nightly" refl (plain "web-1" 5) (plain "web-2" 7) nightly_key other_key
