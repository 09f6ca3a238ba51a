-- ===== src/Policy.antt =====
-- policy/rules.py: the enums and records of the policy. Timeframes are in Policy/Timeframe, month
-- arithmetic in Policy/Calendar, and deadlines in Policy/Deadlines.
pub mod Calendar
pub mod Timeframe
pub mod Deadlines
mod Tests
use comply_roll.Common.{ℕ, String, Option, List}
use comply_roll.Models.{PainRating}
use comply_roll.Policy.Calendar.{Zone}
use comply_roll.Policy.Timeframe.{RuleTimeframe}

pub data CertificationClass : Type 0 where
  b c : CertificationClass

pub data CertificationType : Type 0 where
  twenty_x : CertificationType

pub data CertificationPath : Type 0 where
  program : CertificationPath

pub data RuleForce : Type 0 where
  must must_not should should_not may : RuleForce

pub data ResponseContext : Type 0 where
  irv_lev nirv_lev nlev : ResponseContext

abbrev pub class_value : CertificationClass → String
class_value CertificationClass.b = "B"
class_value CertificationClass.c = "C"

abbrev pub type_value : CertificationType → String
type_value CertificationType.twenty_x = "20x"

abbrev pub path_value : CertificationPath → String
path_value CertificationPath.program = "Program"

-- `calendar_zone` is the zone that the profile's `calendar_timezone` names.
pub record CertificationProfile : Type 0 where
  pub certification_class : CertificationClass
  pub certification_type : CertificationType
  pub certification_path : CertificationPath
  pub affected_party : String
  pub calendar_timezone : String
  pub calendar_zone : Zone

pub record PolicyProvenance : Type 0 where
  pub repository : String
  pub commit : String
  pub dataset_version : String
  pub dataset_last_updated : String
  pub dataset_sha256 : String

pub record PainTimeframe : Type 0 where
  pub pain : PainRating
  pub context : ResponseContext
  pub timeframe : RuleTimeframe
  pub description : String

pub record SelectedRule : Type 0 where
  pub rule_id : String
  pub document_id : String
  pub subset_id : String
  pub source_scope : String
  pub name : String
  pub statement : String
  pub force : RuleForce
  pub timeframe : Option RuleTimeframe
  pub pain_timeframes : List PainTimeframe

pub record PolicyDeadline : Type 0 where
  pub rule_id : String
  pub rule_name : String
  pub force : RuleForce
  pub start_at : ℕ
  pub due_at : ℕ
  pub timeframe : RuleTimeframe
  pub profile : CertificationProfile
  pub provenance : PolicyProvenance
  pub description : String

pub record SelectedPolicy : Type 0 where
  pub profile : CertificationProfile
  pub provenance : PolicyProvenance
  pub rules : List SelectedRule
