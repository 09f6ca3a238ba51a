-- ===== src/Evaluations/Dispositions.antt =====
-- reports/evaluations.py: `resolved_status` of a consistent entry.
use comply_roll.Common.{◌≡◌, ◌≢◌, ◌↔◌, ◌⊎◌, true, false, none, some, is_some, arith}
use comply_roll.Errors.{ok}
use comply_roll.Evaluations.{
  EvaluationInput, case_status, resolved_status, check_entry, check_disposition_consistency, holds,
  status_by, check_closed, accepts_risk, check_rationale, check_false_positive,
}
use comply_roll.Models.{CaseStatus}

-- An entry that passes the check never resolves to `closed`; it has an acceptance rationale
-- exactly if it resolves to `accepted`; one said to be a false positive resolves to that; and it
-- resolves to no status exactly if it states no disposition and is not said to be a false positive.
pub check_entry_lem :
    (entry : EvaluationInput)
    → check_entry entry ≡ ok tt
    → (resolved_status entry ≢ some CaseStatus.closed)
      × ((is_some entry.acceptance_rationale ≡ true)
          ↔ (resolved_status entry ≡ some CaseStatus.accepted))
      × ((entry.is_false_positive ≡ false)
          ⊎ (resolved_status entry ≡ some CaseStatus.false_positive))
      × ((resolved_status entry ≡ none)
          ↔ ((entry.disposition ≡ none) × (entry.is_false_positive ≡ false)))
unfolding check_entry check_disposition_consistency resolved_status case_status holds status_by
    check_closed accepts_risk check_rationale check_false_positive
check_entry_lem entry h =
    (ground arith, (ground arith, ground arith), ground arith, (ground arith, ground arith))
