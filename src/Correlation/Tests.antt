-- ===== src/Correlation/Tests.antt =====
-- Two hosts that fail one rule, a third that passes it, and the groups that they make.
use mathlib.Core.List.Permᴰ
use comply_roll.Common.{◌≡◌, refl, String, some, none, List, [], ◌∷◌}
use comply_roll.Common.Order.Text.{string_order}
use comply_roll.Common.Order.Tuple.{pair_order}
use comply_roll.Common.Sort.{sorted}
use comply_roll.Common.Sort.Laws.{KeyedApart}
use comply_roll.Correlation.{GroupKey, kept, member_order, correlate_observations, earliest, moment}
use comply_roll.Correlation.Members.{members_of, is_under, is_excluded, correlate_observations_lem}
use comply_roll.Correlation.Rearranged.{group_of, correlate_observations-rearranged}
use comply_roll.Correlation.Tracking.{tracking_payload, json_text, json_char, unicode_escape}
use comply_roll.Instant.{Offset, utc}
use comply_roll.Models.{Observation, ObservationDisposition, ObservationOrigin, SourceSeverity}

abbrev pub observed : String → String → ObservationDisposition → Observation
observed host id disposition = record {
  observation_id = id;
  source_type = "stig";
  source_tool = "scanner";
  parser_name = "cklb";
  parser_version = "1";
  source_record_id = "V-1";
  resource = record { resource_id = host; resource_type = "host" };
  observed_at = some (utc 1000);
  ingested_at = utc 2000;
  disposition = disposition;
  source_severity = SourceSeverity.high;
  title = "A rule";
  description = "";
  source_artifact_digest = "";
  source_artifact_name = "scan.cklb";
  source_identifiers = [];
  source_metadata = [];
  evidence_ids = [];
  context_key = "";
  origin = ObservationOrigin.artifact;
}

abbrev db : Observation
db = observed "db-1" "obs-1" ObservationDisposition.opened

abbrev web : Observation
web = observed "web-1" "obs-2" ObservationDisposition.opened

abbrev clean : Observation
clean = observed "web-2" "obs-3" ObservationDisposition.pass

abbrev scan : List Observation
scan = web ∷ clean ∷ db ∷ []

abbrev rule_key : GroupKey
rule_key = ("stig", ("V-1", ""))

abbrev pub sha256_hex : String → String
sha256_hex s = "00000000000000000000"

kept_hosts : kept (is_under rule_key) scan ≡ web ∷ db ∷ []
unfolding kept
kept_hosts = refl

payload : tracking_payload "stig" "V-\"1" "\n" ≡ "[\"stig\",\"V-\\\"1\",\"\\n\"]"
unfolding tracking_payload json_text json_char unicode_escape
payload = refl

-- An offset moves the earliest time.
first_time :
    earliest (utc 90000000000 ∷ record { face = 90000000000; offset = Offset.ahead 5 } ∷ []) none
    ≡ some (record { face = 90000000000; offset = Offset.ahead 5 })
unfolding earliest moment
first_time = refl

correlate_observations_lem_example :
    (members_of rule_key (correlate_observations sha256_hex scan).groups
      ≡ sorted member_order (kept (is_under rule_key) scan))
    × ((correlate_observations sha256_hex scan).excluded ≡ kept is_excluded scan)
correlate_observations_lem_example = correlate_observations_lem sha256_hex scan rule_key

scan-KeyedApart : KeyedApart member_order (web ∷ db ∷ [])
scan-KeyedApart = (((λ e. cc), tt), (tt, tt))

correlate_observations-rearranged_example :
    group_of rule_key (correlate_observations sha256_hex (web ∷ db ∷ [])).groups
    ≡ group_of rule_key (correlate_observations sha256_hex (db ∷ web ∷ [])).groups
correlate_observations-rearranged_example =
    correlate_observations-rearranged sha256_hex (web ∷ db ∷ []) (db ∷ web ∷ []) rule_key
      (Permᴰ.swap refl refl) scan-KeyedApart
