-- ===== src/Coverage/Projection.antt =====
-- reports/coverage.py: the records of a coverage projection.
use comply_roll.Common.{ℕ, String, Option, List}
use comply_roll.Coverage.Evidence.{CoverageEvidence}
use comply_roll.Coverage.Window.{CoverageClock, CoverageWindow}
use comply_roll.Inventory.{Inventory, InformationResource}
use comply_roll.Models.{ResourceRef}
use comply_roll.Policy.{CertificationProfile, PolicyProvenance, RuleForce}

pub record ResourceCoverage : Type 0 where
  pub entry : InformationResource
  pub clocks : List CoverageClock
  pub last_examined : Option ℕ
  pub last_verified : Option ℕ
  pub examined_observations : ℕ
  pub untimed : List CoverageEvidence
  pub after_decommission : List CoverageEvidence
  pub warnings : List String

pub record RuleSummary : Type 0 where
  pub rule_id : String
  pub force : RuleForce
  pub expected : ℕ
  pub current : ℕ
  pub stale : ℕ
  pub missing : ℕ
  pub unanchored : ℕ
  pub undetermined : ℕ

pub record UnregisteredResource : Type 0 where
  pub resource : ResourceRef
  pub observations : ℕ

pub record CoverageResult : Type 0 where
  pub inventory : Inventory
  pub as_of : ℕ
  pub profile : CertificationProfile
  pub provenance : PolicyProvenance
  pub summary : List RuleSummary
  pub resources : List ResourceCoverage
  pub windows : List CoverageWindow
  pub unregistered : List UnregisteredResource
  pub later : List CoverageEvidence
