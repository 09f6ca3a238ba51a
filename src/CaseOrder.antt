-- ===== src/CaseOrder.antt =====
-- history/order.py: `case_order_diagnostic`. Of the state of a case it reads the tracking id and
-- the label.
pub mod Returns
mod Tests
use comply_roll.Common.{
  ℕ, Bool, true, false, not, String, Option, none, some, List, [], ◌∷◌, is_some, ◌==◌,
  if◌then◌else◌,
}
use comply_roll.Checks.{
  DetectionAttestation, Detection, clock_problem, detection_clock, resolve_detection_time,
}
use comply_roll.Checks.Order.{OrderDiagnostic, evaluation_order_diagnostic}
use comply_roll.Correlation.{VulnerabilityGroup}
use comply_roll.Errors.{Result, ok, value_error, refuse_if, ◌>>=◌, ◌>>◌}
use comply_roll.Instant.{Datetime, utc}
use comply_roll.Models.Text.{contains}

-- The attestation that a report would read for the case.
unfoldable pub attestation_of : String → Option Datetime → DetectionAttestation
attestation_of tracking_id none = record { default = none; by_tracking_id = [] }
attestation_of tracking_id (some at) = record {
  default = none;
  by_tracking_id = (tracking_id, at) ∷ [];
}

-- `clock is not None and clock_problem(clock) is not None`
unfoldable pub stored_problem : Option Datetime → Result (Option String)
stored_problem none = ok none
stored_problem (some clock) = clock_problem clock [] none

-- `sources is not None and detected_source not in sources`
unfoldable pub is_left_out : Option (List String) → String → Bool
is_left_out none source = false
is_left_out (some sources) source = not (contains source sources)

-- `case.label if label is None else label`
unfoldable pub label_or : Option String → String → String
label_or none case_label = case_label
label_or (some label) case_label = label

-- After the detection time is resolved.
unfoldable pub order_against :
    String
    → VulnerabilityGroup
    → Datetime
    → Option (List String)
    → Option ℕ
    → String
    → Result (Option OrderDiagnostic)
unfolding is_left_out
order_against label group completed_at sources none source = ok none
order_against label group completed_at sources (some at) source =
    if is_left_out sources source
    then ok none
    else evaluation_order_diagnostic label group.source_record_id (utc at) source completed_at
        (some group.source_type)

unfoldable pub resolved :
    String
    → VulnerabilityGroup
    → Datetime
    → Option (List String)
    → Detection
    → Result (Option OrderDiagnostic)
resolved label group completed_at sources (at, source) =
    order_against label group completed_at sources at source

-- Whether the clock in history can be computed with decides before it is converted.
unfoldable pub if_computable :
    String
    → VulnerabilityGroup
    → DetectionAttestation
    → Datetime
    → Option (List String)
    → Option String
    → Result (Option OrderDiagnostic)
if_computable label group attestation completed_at sources (some problem) = ok none
if_computable label group attestation completed_at sources none =
    resolve_detection_time group attestation >>= resolved label group completed_at sources

-- `case_order_diagnostic`
unfoldable pub case_order_diagnostic :
    String
    → String
    → VulnerabilityGroup
    → Datetime
    → Option Datetime
    → Option (List String)
    → Option String
    → Result (Option OrderDiagnostic)
unfolding label_or
case_order_diagnostic tracking_id case_label group completed_at attested_at sources label = do
  refuse_if (not (tracking_id == group.tracking_id)) (value_error "case")
  let attestation = attestation_of tracking_id attested_at
  problem ← stored_problem (detection_clock group attestation)
  if_computable (label_or label case_label) group attestation completed_at sources problem
