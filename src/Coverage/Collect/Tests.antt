-- ===== src/Coverage/Collect/Tests.antt =====
-- A scan and an attestation before the cutoff, and a scan after it.
use comply_roll.Common.{ℕ, ◌≡◌, refl, false, String, some, none, [], ◌∷◌}
use comply_roll.Coverage.Collect.{
  Files, collect, collect_observations, collect_observation, collect_verification, collect_entries,
  collect_verifications, place, place_registered, file_observation, file_evidence, is_row,
  verifies_entry, observed_instant, is_later, stopped_before, update,
}
use comply_roll.Coverage.Evidence.{CoverageEvidence, EvidenceKind, check_evidence}
use comply_roll.Errors.{ok}
use comply_roll.Instant.{utc, to_utc}
use comply_roll.Inventory.{Inventory, InformationResource, find_entry, entry_for}
use comply_roll.Models.{
  Observation, ObservationDisposition, ObservationOrigin, SourceSeverity, ResourceRef,
}

abbrev web : InformationResource
web = record {
  resource_type = "host";
  resource_id = "web-1";
  machine_based = false;
  expected_since = 1000;
  drift_likely = none;
  sample_group = none;
  job = none;
  decommissioned_at = none;
  aliases = [];
  verifications = record { at = 2000; reference = "ticket-1" } ∷ [];
}

abbrev inventory : Inventory
inventory = record {
  name = "inventory.json";
  sha256 = "00";
  size_bytes = 12;
  entries = web ∷ [];
  index = (("host", "web-1"), web) ∷ [];
}

abbrev host : ResourceRef
host = record { resource_id = "web-1"; resource_type = "host" }

abbrev scan : String → ℕ → Observation
scan id at = record {
  observation_id = id;
  source_type = "stig";
  source_tool = "scanner";
  parser_name = "cklb";
  parser_version = "1";
  source_record_id = "V-1";
  resource = host;
  observed_at = some (utc at);
  ingested_at = utc 9000;
  disposition = ObservationDisposition.pass;
  source_severity = SourceSeverity.high;
  title = "A rule";
  description = "";
  source_artifact_digest = "";
  source_artifact_name = "scan.cklb";
  source_identifiers = [];
  source_metadata = [];
  evidence_ids = [];
  context_key = "";
  origin = ObservationOrigin.artifact;
}

abbrev evidence : String → ℕ → CoverageEvidence
evidence id at = record {
  kind = EvidenceKind.observation;
  resource = host;
  at = some at;
  reference = id;
  disposition = some ObservationDisposition.pass;
}

abbrev ticket : CoverageEvidence
ticket = record {
  kind = EvidenceKind.attestation;
  resource = host;
  at = some 2000;
  reference = "ticket-1";
  disposition = none;
}

abbrev filed : Files
filed = record {
  collected =
      (
        host,
        record {
          examined = (3000, evidence "obs-1" 3000) ∷ (2000, ticket) ∷ [];
          verifying = (2000, ticket) ∷ [];
          untimed = [];
          after_decommission = [];
        },
      )
      ∷ [];
  unregistered = [];
  later = evidence "obs-2" 6000 ∷ [];
}

collected : collect (scan "obs-1" 3000 ∷ scan "obs-2" 6000 ∷ []) inventory 5000 ≡ ok filed
unfolding collect collect_observations collect_observation collect_verification collect_entries
    collect_verifications place place_registered file_observation file_evidence is_row
    verifies_entry observed_instant is_later stopped_before update check_evidence to_utc find_entry
    entry_for
collected = refl
