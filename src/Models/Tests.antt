-- ===== src/Models/Tests.antt =====
-- An observation that is accepted.
use comply_roll.Common.{◌≡◌, refl, String, none, some, []}
use comply_roll.Errors.{ok}
use comply_roll.Instant.{utc, to_utc}
use comply_roll.Models.{Observation, ObservationDisposition, ObservationOrigin, SourceSeverity}
use comply_roll.Models.Checks.{check_observation}
use comply_roll.Models.Checks.Accepted.{IsAccepted, check_observation-IsAccepted}
use comply_roll.Models.Text.{
  require_text, is_blank, require_sha256, lower, lower_char, is_hex, all_hex, count_chars,
}

abbrev gap : Observation
gap = record {
  observation_id = "pending";
  source_type = "complyroll.coverage";
  source_tool = "complyroll";
  parser_name = "complyroll.coverage";
  parser_version = "1";
  source_record_id = "coverage-gap";
  resource = record { resource_id = "web-1"; resource_type = "host" };
  observed_at = some (utc 1000);
  ingested_at = utc 2000;
  disposition = ObservationDisposition.opened;
  source_severity = SourceSeverity.unknown;
  title = "A gap";
  description = "";
  source_artifact_digest = "";
  source_artifact_name = "";
  source_identifiers = [];
  source_metadata = [];
  evidence_ids = [];
  context_key = "VER-TFR-MVX:resource:host:web-1";
  origin = ObservationOrigin.system;
}

gap_checks : check_observation gap ≡ ok gap
unfolding check_observation require_text is_blank to_utc
gap_checks = refl

-- A finding of a scan, with its digest in capitals and then in small letters.
abbrev scan : String → Observation
scan digest = record gap {
  source_type = "stig";
  observed_at = none;
  source_artifact_digest = digest;
  source_artifact_name = "scan.cklb";
  origin = ObservationOrigin.artifact;
}

abbrev capitals : String
capitals = "ABCDEF0123456789ABCDEF0123456789ABCDEF0123456789ABCDEF0123456789"

abbrev small : String
small = "abcdef0123456789abcdef0123456789abcdef0123456789abcdef0123456789"

scan_checks : check_observation (scan capitals) ≡ ok (scan small)
unfolding check_observation require_text is_blank require_sha256 lower lower_char is_hex all_hex
    count_chars
scan_checks = refl

check_observation-IsAccepted_example : IsAccepted (scan capitals) (scan small)
check_observation-IsAccepted_example =
    check_observation-IsAccepted (scan capitals) {checked = scan small} scan_checks
