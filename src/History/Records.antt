-- ===== src/History/Records.antt =====
-- history/fold.py: the records of a case and what is read off them; the record of an event is that
-- of store/sqlite.py.
use comply_roll.Common.{ℕ, Bool, ◌==◌, String, List, [], ◌∷◌, Option, none, some, if◌then◌else◌}
use comply_roll.Evaluations.{ProjectedReduction}
use comply_roll.Instant.{Datetime}
use comply_roll.Models.{CaseStatus, PainRating}
use comply_roll.Store.Json.{Fields}

-- `EventRecord`, as far as the fold reads it
pub record EventRecord : Type 0 where
  pub sequence : ℕ
  pub event_type : String
  pub event_version : ℕ
  pub payload : Fields

pub record ObservationLink : Type 0 where
  pub sequence : ℕ
  pub observation_id : String
  pub resource_id : String
  pub resource_type : String
  pub observed_at : Option Datetime
  pub source_tool : String
  pub source_artifact_sha256 : String
  pub source_identifiers : List String

pub record AttestationRecord : Type 0 where
  pub sequence : ℕ
  pub detected_at : Datetime
  pub rationale : String
  pub attested_at : Datetime

pub record EvaluationRecord : Type 0 where
  pub sequence : ℕ
  pub completed_at : Datetime
  pub is_internet_reachable : Bool
  pub is_likely_exploitable : Bool
  pub pain : PainRating
  pub potential_agency_impact : String
  pub rationale : String
  pub evaluator : String
  pub is_false_positive : Bool
  pub supplementary_risk_information : Option String
  pub projected_next_reduction : Option ProjectedReduction

pub record PainReductionRecord : Type 0 where
  pub sequence : ℕ
  pub reduced_at : Datetime
  pub rating : PainRating

pub record DispositionRecord : Type 0 where
  pub sequence : ℕ
  pub status : CaseStatus
  pub closed_disposition : Option CaseStatus
  pub acceptance_rationale : Option String
  pub recorded_at : Datetime

-- The local variables of the fold.
pub record Folding : Type 0 where
  pub provider_tracking_id : Option String
  pub identified_sequence : Option ℕ
  pub links : List ObservationLink
  pub attestation : Option AttestationRecord
  pub evaluations : List EvaluationRecord
  pub reductions : List PainReductionRecord
  pub disposition : Option DispositionRecord

pub record CaseState : Type 0 where
  pub tracking_id : String
  pub provider_tracking_id : Option String
  pub source_type : String
  pub source_record_id : String
  pub context_key : String
  pub title : String
  pub description : String
  pub created_at : Datetime
  pub created_sequence : ℕ
  pub links : List ObservationLink
  pub attestation : Option AttestationRecord
  pub evaluations : List EvaluationRecord
  pub pain_reductions : List PainReductionRecord
  pub disposition : Option DispositionRecord
  pub identified_sequence : Option ℕ
  pub last_sequence : ℕ

-- `DispositionRecord.resolved_status`
unfoldable pub resolved : DispositionRecord → Option CaseStatus
resolved d = elim d.status [ CaseStatus.closed ↦ d.closed_disposition | status ↦ some status ]

-- `effective_tracking_id`
unfoldable pub effective_tracking_id : CaseState → String
effective_tracking_id state = elim state.provider_tracking_id [
  | none ↦ state.tracking_id
  | some given ↦ if given == "" then state.tracking_id else given
]

-- `items[-1] if items else None`
abbrev pub last_item {ℓ} : {A : Type ℓ} → List A → Option A
last_item [] = none
last_item (x ∷ []) = some x
last_item (x ∷ y ∷ rest) = last_item (y ∷ rest)

-- `current_evaluation`
unfoldable pub current_evaluation : CaseState → Option EvaluationRecord
current_evaluation state = last_item state.evaluations
