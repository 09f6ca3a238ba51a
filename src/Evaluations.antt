-- ===== src/Evaluations.antt =====
-- reports/evaluations.py: the evaluation records and the rules their dispositions keep.
pub mod Dispositions
mod Tests
use Prim.Native.String.{◌++◌ as append}
use comply_roll.Common.{
  ℕ, Bool, true, false, not, ◌&&◌, ◌||◌, String, Option, none, some, List, [], ◌∷◌, ◌++◌, ◌==◌,
  if◌then◌else◌, is_none, is_some,
}
use comply_roll.Errors.{Result, ok, err, report_input_error, refuse_if, ◌>>=◌, ◌>>◌}
use comply_roll.Instant.{Datetime}
use comply_roll.Models.{CaseStatus, PainRating}

pub record EvaluationMatch : Type 0 where
  pub source_record_id : String
  pub context_key : Option String
  pub source_type : Option String

pub record PainReductionEvent : Type 0 where
  pub reduced_at : Datetime
  pub rating : PainRating

pub record ProjectedReduction : Type 0 where
  pub estimated_at : Datetime
  pub target_rating : PainRating

pub record EvaluationInput : Type 0 where
  pub index : ℕ
  pub match : EvaluationMatch
  pub completed_at : Datetime
  pub is_internet_reachable : Bool
  pub is_likely_exploitable : Bool
  pub pain : PainRating
  pub potential_agency_impact : String
  pub rationale : String
  pub evaluator : String
  pub tracking_id : Option String
  pub is_false_positive : Bool
  pub disposition : Option CaseStatus
  pub closed_disposition : Option CaseStatus
  pub projected_next_reduction : Option ProjectedReduction
  pub pain_reduction_events : List PainReductionEvent
  pub supplementary_risk_information : Option String
  pub acceptance_rationale : Option String

-- `EvaluationMatch._missing_keys`
unfoldable pub missing_keys : EvaluationMatch → List String
missing_keys match =
    (if is_none match.context_key then "contextKey" ∷ [] else [])
    ++ (if is_none match.source_type then "sourceType" ∷ [] else [])

-- `record_label`
unfoldable pub record_label : String → Option String → String
record_label tracking_id none = tracking_id
record_label tracking_id (some override) =
    if override == tracking_id
    then tracking_id
    else append override (append " (" (append tracking_id ")"))

-- `status is CaseStatus.CLOSED`, and the like
abbrev pub is_closed : CaseStatus → Bool
is_closed CaseStatus.closed = true
is_closed _ = false

abbrev pub is_accepted : CaseStatus → Bool
is_accepted CaseStatus.accepted = true
is_accepted _ = false

abbrev pub is_false_positive_status : CaseStatus → Bool
is_false_positive_status CaseStatus.false_positive = true
is_false_positive_status _ = false

-- `status in CLOSED_DISPOSITIONS`
abbrev pub is_closing : CaseStatus → Bool
is_closing CaseStatus.fully_mitigated = true
is_closing CaseStatus.partially_mitigated = true
is_closing CaseStatus.false_positive = true
is_closing CaseStatus.remediated = true
is_closing CaseStatus.accepted = true
is_closing _ = false

unfoldable holds : (CaseStatus → Bool) → Option CaseStatus → Bool
holds test none = false
holds test (some status) = test status

unfoldable status_by : Option CaseStatus → Bool → Option CaseStatus
status_by (some status) is_false_positive = some status
status_by none true = some CaseStatus.false_positive
status_by none false = none

-- `EvaluationInput.case_status`
unfoldable pub case_status : EvaluationInput → Option CaseStatus
unfolding status_by
case_status entry = status_by entry.disposition entry.is_false_positive

-- `EvaluationInput.resolved_status`
unfoldable pub resolved_status : EvaluationInput → Option CaseStatus
unfolding holds
resolved_status entry =
    if holds is_closed (case_status entry) then entry.closed_disposition else case_status entry

-- The first test of `_check_disposition_consistency`.
unfoldable check_closed : Option CaseStatus → Option CaseStatus → Result (Unit {0})
unfolding holds
check_closed disposition closed_disposition =
    if holds is_closed disposition
    then (do
      refuse_if (is_none closed_disposition) (report_input_error "closedDisposition")
      refuse_if (not (holds is_closing closed_disposition))
          (report_input_error "closedDisposition"))
    else refuse_if (is_some closed_disposition) (report_input_error "closedDisposition")

-- `accepts_risk`
unfoldable accepts_risk : Option CaseStatus → Option CaseStatus → Bool
unfolding holds
accepts_risk disposition closed_disposition =
    holds is_accepted disposition
    || (holds is_closed disposition && holds is_accepted closed_disposition)

unfoldable check_rationale : Bool → Option String → Result (Unit {0})
check_rationale accepts acceptance_rationale =
    if accepts
    then refuse_if (is_none acceptance_rationale) (report_input_error "acceptanceRationale")
    else refuse_if (is_some acceptance_rationale) (report_input_error "acceptanceRationale")

unfoldable check_false_positive : Bool → Option CaseStatus → Option CaseStatus → Result (Unit {0})
unfolding holds
check_false_positive is_false_positive disposition closed_disposition =
    let resolved = if holds is_closed disposition then closed_disposition else disposition in
    refuse_if
      (is_false_positive && is_some disposition && not (holds is_false_positive_status resolved))
      (report_input_error "isFalsePositive")

-- `_check_disposition_consistency`
unfoldable pub check_disposition_consistency :
    Option CaseStatus → Option CaseStatus → Bool → Option String → Result (Unit {0})
unfolding check_closed accepts_risk check_rationale check_false_positive
check_disposition_consistency disposition closed_disposition is_false_positive
      acceptance_rationale =
    do
      check_closed disposition closed_disposition
      check_rationale (accepts_risk disposition closed_disposition) acceptance_rationale
      check_false_positive is_false_positive disposition closed_disposition

-- The check as `_parse_entry` makes it of the entry that it returns.
unfoldable pub check_entry : EvaluationInput → Result (Unit {0})
check_entry entry =
    check_disposition_consistency entry.disposition entry.closed_disposition entry.is_false_positive
      entry.acceptance_rationale
