-- ===== src/Models/Checks.antt =====
-- models.py: `__post_init__` of `ResourceRef` and of `Observation`.
pub mod Accepted
use text.Mathlib.Text.{starts_with}
use comply_roll.Common.{Bool, not, String, Option, none, some, List, map, ◌==◌}
use comply_roll.Errors.{
  Result, ok, err, value_error, observation_clock_error, refuse_if, ◌>>=◌, ◌>>◌,
}
use comply_roll.Instant.{Datetime, to_utc}
use comply_roll.Models.{ResourceRef, Observation, ObservationOrigin}
use comply_roll.Models.Text.{require_text, require_sha256, has_duplicates}

abbrev pub reserved_source_type_prefix : String
reserved_source_type_prefix = "complyroll."

unfoldable pub check_resource_ref : ResourceRef → Result ResourceRef
check_resource_ref ref = do
  require_text ref.resource_id "resource_id"
  require_text ref.resource_type "resource_type"
  ok ref

-- The branch of an artifact-bound observation: the digest is stored in lower case.
check_artifact : Observation → Result Observation
check_artifact o = do
  refuse_if (starts_with o.source_type reserved_source_type_prefix) (value_error "source_type")
  require_text o.source_artifact_name "source_artifact_name"
  digest ← require_sha256 o.source_artifact_digest "source_artifact_digest"
  ok (record o { source_artifact_digest = digest })

-- `self.observed_at.astimezone(UTC)`, with `OverflowError` turned into `ObservationClockError`.
require_utc_clock : Option Datetime → Result (Unit {0})
require_utc_clock none = err (value_error "observed_at")
require_utc_clock (some at) = elim (to_utc at) [
  | ok _ ↦ ok tt
  | err _ ↦ err observation_clock_error
]

-- The code asks for `observed_at` before, and converts it after, the check of the context key.
require_observed : Option Datetime → Result (Unit {0})
require_observed none = err (value_error "observed_at")
require_observed (some at) = ok tt

check_system : Observation → Result Observation
unfolding require_utc_clock require_observed
check_system o = do
  refuse_if (not (o.source_artifact_name == "")) (value_error "source_artifact_name")
  refuse_if (not (o.source_artifact_digest == "")) (value_error "source_artifact_digest")
  require_observed o.observed_at
  require_text o.context_key "context_key"
  require_utc_clock o.observed_at
  ok o

check_origin : ObservationOrigin → Observation → Result Observation
unfolding check_artifact check_system
check_origin ObservationOrigin.artifact o = check_artifact o
check_origin ObservationOrigin.system o = check_system o

unfoldable pub check_observation : Observation → Result Observation
unfolding check_origin
check_observation o = do
  require_text o.observation_id "observation_id"
  require_text o.source_type "source_type"
  require_text o.source_tool "source_tool"
  require_text o.parser_name "parser_name"
  require_text o.parser_version "parser_version"
  require_text o.source_record_id "source_record_id"
  checked ← check_origin o.origin o
  refuse_if (has_duplicates checked.source_identifiers) (value_error "source_identifiers")
  refuse_if (has_duplicates (map (λ p. p.0) checked.source_metadata))
      (value_error "source_metadata")
  ok checked
