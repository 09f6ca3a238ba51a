-- ===== src/Evaluations/Tests.antt =====
-- Entries that the consistency check accepts and refuses.
use comply_roll.Common.{
  ◌≡◌, ◌≢◌, ◌↔◌, ◌⊎◌, refl, true, false, String, Option, some, none, [], Bool, is_some,
}
use comply_roll.Errors.{ok, err, report_input_error}
use comply_roll.Evaluations.{
  EvaluationInput, check_entry, check_disposition_consistency, resolved_status, check_closed,
  accepts_risk, check_rationale, check_false_positive, holds, record_label,
}
use comply_roll.Evaluations.Dispositions.{check_entry_lem}
use comply_roll.Instant.{utc}
use comply_roll.Models.{CaseStatus, PainRating}

abbrev pub entry_with :
    Option CaseStatus → Option CaseStatus → Bool → Option String → EvaluationInput
entry_with disposition closed_disposition is_false_positive acceptance_rationale = record {
  index = 0;
  match = record { source_record_id = "V-1"; context_key = none; source_type = some "stig" };
  completed_at = utc 5000;
  is_internet_reachable = true;
  is_likely_exploitable = false;
  pain = PainRating.n3;
  potential_agency_impact = "none";
  rationale = "reviewed";
  evaluator = "analyst";
  tracking_id = none;
  is_false_positive = is_false_positive;
  disposition = disposition;
  closed_disposition = closed_disposition;
  projected_next_reduction = none;
  pain_reduction_events = [];
  supplementary_risk_information = none;
  acceptance_rationale = acceptance_rationale;
}

abbrev accepting : EvaluationInput
accepting = entry_with (some CaseStatus.closed) (some CaseStatus.accepted) false (some "cost")

accepting_checks : check_entry accepting ≡ ok tt
unfolding check_entry check_disposition_consistency check_closed accepts_risk check_rationale
    check_false_positive holds
accepting_checks = refl

contradiction :
    check_entry (entry_with (some CaseStatus.remediated) none true none)
    ≡ err (report_input_error "isFalsePositive")
unfolding check_entry check_disposition_consistency check_closed accepts_risk check_rationale
    check_false_positive holds
contradiction = refl

renamed : record_label "case-1" (some "VULN-7") ≡ "VULN-7 (case-1)"
unfolding record_label
renamed = refl

check_entry_lem_example :
    (resolved_status accepting ≢ some CaseStatus.closed)
    × ((is_some accepting.acceptance_rationale ≡ true)
        ↔ (resolved_status accepting ≡ some CaseStatus.accepted))
    × ((false ≡ false) ⊎ (resolved_status accepting ≡ some CaseStatus.false_positive))
    × ((resolved_status accepting ≡ none)
        ↔ ((accepting.disposition ≡ none) × (accepting.is_false_positive ≡ false)))
check_entry_lem_example = check_entry_lem accepting accepting_checks
