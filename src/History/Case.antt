-- ===== src/History/Case.antt =====
-- history/fold.py: `fold_case_records`. The check of a payload against its contract, which the
-- fold asks the repository for, is given to it.
pub mod Folded
pub mod Named
pub mod Summed
use comply_roll.Common.{
  ℕ, zero, suc, Bool, true, false, not, ◌==◌, String, List, [], ◌∷◌, ◌++◌, Option, none, some,
  if◌then◌else◌,
}
use comply_roll.Errors.{Result, ok, err, refuse_if, ◌>>◌, ◌>>=◌, history_error, case_not_found}
use comply_roll.Evaluations.{ProjectedReduction}
use comply_roll.Instant.{Datetime, Offset}
use comply_roll.Models.{CaseStatus, PainRating}
use comply_roll.Store.Json.{Fields, Json, null, object}
use comply_roll.History.Records.{
  EventRecord, ObservationLink, AttestationRecord, EvaluationRecord, PainReductionRecord,
  DispositionRecord, Folding, CaseState,
}
use comply_roll.History.Fields.{
  get, get_text, get_optional_text, get_flag, get_rating, get_status, get_optional_status,
  get_text_list, get_timestamp, get_optional_timestamp,
}

-- The branches of the loop, by the type of the event.
pub data Branch : Type 0 where
  linked attested evaluated reduced disposed identified unexpected : Branch

unfoldable pub branch_of : String → Branch
branch_of event_type =
    if event_type == "case.observation_linked"
    then Branch.linked
    else if event_type == "detection.attested"
    then Branch.attested
    else if event_type == "case.evaluated"
    then Branch.evaluated
    else if event_type == "case.pain_reduced"
    then Branch.reduced
    else if event_type == "case.disposition_recorded"
    then Branch.disposed
    else if event_type == "case.identified"
    then Branch.identified
    else Branch.unexpected

module _ (fromisoformat : String → Option (ℕ × Option Offset)) where
  unfoldable pub projected_reduction : Json → Result (Option ProjectedReduction)
  unfolding get_timestamp get_rating
  projected_reduction projection = elim projection [
    | null ↦ ok none
    | object fs ↦ get_timestamp fromisoformat fs "estimatedAt" >>= λ estimated_at.
        get_rating fs "targetRating" >>= λ target.
        ok (some (record { estimated_at = estimated_at; target_rating = target }))
    | _ ↦ err (history_error "projectedNextReduction")
  ]

  unfoldable pub observation_link : ℕ → Fields → Result ObservationLink
  unfolding get_text get_optional_timestamp get_text_list
  observation_link sequence body = do
    observation_id ← get_text body "observationId"
    resource_id ← get_text body "resourceId"
    resource_type ← get_text body "resourceType"
    observed_at ← get_optional_timestamp fromisoformat body "observedAt"
    source_tool ← get_text body "sourceTool"
    sha256 ← get_text body "sourceArtifactSha256"
    source_identifiers ← get_text_list body "sourceIdentifiers"
    ok (record {
      sequence = sequence;
      observation_id = observation_id;
      resource_id = resource_id;
      resource_type = resource_type;
      observed_at = observed_at;
      source_tool = source_tool;
      source_artifact_sha256 = sha256;
      source_identifiers = source_identifiers;
    })

  unfoldable pub attestation_record : ℕ → Fields → Result AttestationRecord
  unfolding get_timestamp get_text
  attestation_record sequence body = do
    detected_at ← get_timestamp fromisoformat body "detectedAt"
    rationale ← get_text body "rationale"
    attested_at ← get_timestamp fromisoformat body "attestedAt"
    ok (record {
      sequence = sequence;
      detected_at = detected_at;
      rationale = rationale;
      attested_at = attested_at;
    })

  -- `_evaluation_record`
  unfoldable pub evaluation_record : ℕ → Fields → Result EvaluationRecord
  unfolding get projected_reduction get_timestamp get_flag get_rating get_text get_optional_text
  evaluation_record sequence payload = do
    projected ← projected_reduction (get "projectedNextReduction" payload)
    completed_at ← get_timestamp fromisoformat payload "completedAt"
    reachable ← get_flag payload "isInternetReachable"
    exploitable ← get_flag payload "isLikelyExploitable"
    pain ← get_rating payload "pain"
    impact ← get_text payload "potentialAgencyImpact"
    rationale ← get_text payload "rationale"
    evaluator ← get_text payload "evaluator"
    false_positive ← get_flag payload "isFalsePositive"
    supplementary ← get_optional_text payload "supplementaryRiskInformation"
    ok (record {
      sequence = sequence;
      completed_at = completed_at;
      is_internet_reachable = reachable;
      is_likely_exploitable = exploitable;
      pain = pain;
      potential_agency_impact = impact;
      rationale = rationale;
      evaluator = evaluator;
      is_false_positive = false_positive;
      supplementary_risk_information = supplementary;
      projected_next_reduction = projected;
    })

  unfoldable pub reduction_record : ℕ → Fields → Result PainReductionRecord
  unfolding get_timestamp get_rating
  reduction_record sequence body = do
    reduced_at ← get_timestamp fromisoformat body "reducedAt"
    rating ← get_rating body "rating"
    ok (record { sequence = sequence; reduced_at = reduced_at; rating = rating })

  unfoldable pub disposition_record : ℕ → Fields → Result DispositionRecord
  unfolding get_status get_optional_status get_optional_text get_timestamp
  disposition_record sequence body = do
    status ← get_status body "status"
    closed_disposition ← get_optional_status body "closedDisposition"
    rationale ← get_optional_text body "acceptanceRationale"
    recorded_at ← get_timestamp fromisoformat body "recordedAt"
    ok (record {
      sequence = sequence;
      status = status;
      closed_disposition = closed_disposition;
      acceptance_rationale = rationale;
      recorded_at = recorded_at;
    })

  -- One event of the loop.
  unfoldable pub fold_branch : Branch → Folding → EventRecord → Result Folding
  unfolding observation_link attestation_record evaluation_record reduction_record
      disposition_record get_text
  fold_branch Branch.linked f r = observation_link r.sequence r.payload >>= λ link.
      ok (record f { links = f.links ++ link ∷ [] })
  fold_branch Branch.attested f r = attestation_record r.sequence r.payload >>= λ attestation.
      ok (record f { attestation = some attestation })
  fold_branch Branch.evaluated f r = evaluation_record r.sequence r.payload >>= λ evaluation.
      ok (record f { evaluations = f.evaluations ++ evaluation ∷ [] })
  fold_branch Branch.reduced f r = reduction_record r.sequence r.payload >>= λ reduction.
      ok (record f { reductions = f.reductions ++ reduction ∷ [] })
  fold_branch Branch.disposed f r = disposition_record r.sequence r.payload >>= λ disposition.
      ok (record f { disposition = some disposition })
  fold_branch Branch.identified f r = get_text r.payload "providerTrackingId" >>= λ provider.
      ok (record f { provider_tracking_id = some provider; identified_sequence = some r.sequence })
  fold_branch Branch.unexpected f r = err (history_error "unexpected case event")

  unfoldable pub fold_record : Folding → EventRecord → Result Folding
  unfolding branch_of fold_branch
  fold_record f r = fold_branch (branch_of r.event_type) f r

  unfoldable pub fold_records : Folding → List EventRecord → Result Folding
  unfolding fold_record
  fold_records f [] = ok f
  fold_records f (r ∷ records) = fold_record f r >>= λ next. fold_records next records

  abbrev pub unfolded : Folding
  unfolded = record {
    provider_tracking_id = none;
    identified_sequence = none;
    links = [];
    attestation = none;
    evaluations = [];
    reductions = [];
    disposition = none;
  }

  abbrev pub last_sequence_of : ℕ → List EventRecord → ℕ
  last_sequence_of sequence [] = sequence
  last_sequence_of sequence (r ∷ records) = last_sequence_of r.sequence records

  -- `CaseState(…)`, whose arguments read the payload of the first event
  unfoldable pub case_state : String → EventRecord → List EventRecord → Folding → Result CaseState
  unfolding get_text get_timestamp
  case_state tracking_id created records f = do
    source_type ← get_text created.payload "sourceType"
    source_record_id ← get_text created.payload "sourceRecordId"
    context_key ← get_text created.payload "contextKey"
    title ← get_text created.payload "title"
    description ← get_text created.payload "description"
    created_at ← get_timestamp fromisoformat created.payload "createdAt"
    ok (record {
      tracking_id = tracking_id;
      provider_tracking_id = f.provider_tracking_id;
      source_type = source_type;
      source_record_id = source_record_id;
      context_key = context_key;
      title = title;
      description = description;
      created_at = created_at;
      created_sequence = created.sequence;
      links = f.links;
      attestation = f.attestation;
      evaluations = f.evaluations;
      pain_reductions = f.reductions;
      disposition = f.disposition;
      identified_sequence = f.identified_sequence;
      last_sequence = last_sequence_of created.sequence records;
    })

  unfoldable pub validate_all :
      (String → Fields → ℕ → Result (Unit {0})) → List EventRecord → Result (Unit {0})
  validate_all validate_payload [] = ok tt
  validate_all validate_payload (r ∷ records) =
      validate_payload r.event_type r.payload r.event_version
      >> validate_all validate_payload records

  unfoldable pub fold_case_records :
      (String → Fields → ℕ → Result (Unit {0})) → String → List EventRecord → Result CaseState
  unfolding fold_records case_state validate_all get_text
  fold_case_records validate_payload tracking_id [] = err (case_not_found tracking_id)
  fold_case_records validate_payload tracking_id (created ∷ records) = do
    _ ← refuse_if (not (created.event_type == "case.created")) (history_error "case opener")
    _ ← validate_all validate_payload (created ∷ records)
    f ← fold_records unfolded records
    recorded ← get_text created.payload "trackingId"
    _ ← refuse_if (not (recorded == tracking_id)) (history_error "trackingId")
    case_state tracking_id created records f
