-- ===== src/Models.antt =====
-- models.py: the enums, `ResourceRef` and `Observation`. A field's Python type check holds here
-- by the type of the field; what `__post_init__` checks beside it is in Models/Checks.
pub mod Text
pub mod Checks
mod Tests
use comply_roll.Common.{ℕ, Bool, true, false, String, Option, List, leb}
use comply_roll.Instant.{Datetime}

pub data SourceSeverity : Type 0 where
  critical high medium low informational unknown : SourceSeverity

pub data ObservationDisposition : Type 0 where
  opened pass not_applicable not_reviewed error unknown : ObservationDisposition

pub data ObservationOrigin : Type 0 where
  artifact system : ObservationOrigin

pub data Sensitivity : Type 0 where
  restricted internal public : Sensitivity

pub data PainRating : Type 0 where
  n1 n2 n3 n4 n5 : PainRating

pub data CaseStatus : Type 0 where
  new evaluating active partially_mitigated fully_mitigated : CaseStatus
  remediated accepted false_positive closed : CaseStatus

-- `x.value` of the enums
abbrev pub disposition_value : ObservationDisposition → String
disposition_value ObservationDisposition.opened = "open"
disposition_value ObservationDisposition.pass = "pass"
disposition_value ObservationDisposition.not_applicable = "not_applicable"
disposition_value ObservationDisposition.not_reviewed = "not_reviewed"
disposition_value ObservationDisposition.error = "error"
disposition_value ObservationDisposition.unknown = "unknown"

abbrev pub severity_value : SourceSeverity → String
severity_value SourceSeverity.critical = "critical"
severity_value SourceSeverity.high = "high"
severity_value SourceSeverity.medium = "medium"
severity_value SourceSeverity.low = "low"
severity_value SourceSeverity.informational = "informational"
severity_value SourceSeverity.unknown = "unknown"

abbrev pub origin_value : ObservationOrigin → String
origin_value ObservationOrigin.artifact = "artifact"
origin_value ObservationOrigin.system = "system"

-- `PainRating` is an `IntEnum`.
abbrev pub pain_value : PainRating → ℕ
pain_value PainRating.n1 = 1
pain_value PainRating.n2 = 2
pain_value PainRating.n3 = 3
pain_value PainRating.n4 = 4
pain_value PainRating.n5 = 5

-- `disposition is ObservationDisposition.OPEN`
abbrev pub is_open : ObservationDisposition → Bool
is_open ObservationDisposition.opened = true
is_open _ = false

abbrev pub is_pass : ObservationDisposition → Bool
is_pass ObservationDisposition.pass = true
is_pass _ = false

abbrev pub is_artifact : ObservationOrigin → Bool
is_artifact ObservationOrigin.artifact = true
is_artifact ObservationOrigin.system = false

pub record ResourceRef : Type 0 where
  pub resource_id : String
  pub resource_type : String

pub record Observation : Type 0 where
  pub observation_id : String
  pub source_type : String
  pub source_tool : String
  pub parser_name : String
  pub parser_version : String
  pub source_record_id : String
  pub resource : ResourceRef
  pub observed_at : Option Datetime
  pub ingested_at : Datetime
  pub disposition : ObservationDisposition
  pub source_severity : SourceSeverity
  pub title : String
  pub description : String
  pub source_artifact_digest : String
  pub source_artifact_name : String
  pub source_identifiers : List String
  pub source_metadata : List (String × String)
  pub evidence_ids : List String
  pub context_key : String
  pub origin : ObservationOrigin
