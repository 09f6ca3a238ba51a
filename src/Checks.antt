-- ===== src/Checks.antt =====
-- reports/checks.py: the clock, order and tracking id rules that the compile and the history
-- share, with `DetectionAttestation` and `ReportDiagnostic` of reports/model.py. A diagnostic's
-- message is the data that its text shows.
pub mod Clocks
pub mod Order
pub mod Collisions
mod Tests
use mathlib.Core.List.{map}
use Prim.Native.String.{◌++◌ as append}
use comply_roll.Common.{
  ℕ, Bool, true, false, not, ◌&&◌, String, Option, none, some, List, [], ◌∷◌, leb, nat_eqb,
  if◌then◌else◌, all, ◌==◌, is_some,
}
use comply_roll.Correlation.{VulnerabilityGroup, has_partial_timestamps}
use comply_roll.Errors.{Result, ok, err, overflow_error, ◌>>=◌}
use comply_roll.Evaluations.{EvaluationInput}
use comply_roll.Instant.{Datetime, to_utc}
use comply_roll.Models.{Observation, PainRating, is_artifact}
use comply_roll.Policy.{SelectedPolicy, PolicyDeadline, class_value}
use comply_roll.Policy.Deadlines.{evaluation_deadline, response_deadline, acceptance_deadline}

abbrev pub detection_failure_source_type : String
detection_failure_source_type = "complyroll.detection-process"

abbrev pub coverage_gap_source_type : String
coverage_gap_source_type = "complyroll.coverage"

-- `system_record_kind`
unfoldable pub system_record_kind : String → String
system_record_kind source_type =
    if source_type == detection_failure_source_type
    then "detection process failure"
    else if source_type == coverage_gap_source_type
    then "coverage gap"
    else "system record"

-- `EvaluatedClock`
pub record EvaluatedClock : Type 0 where
  pub completed_at : Datetime
  pub pain : PainRating
  pub is_internet_reachable : Bool
  pub is_likely_exploitable : Bool

abbrev pub no_utc_instant : String
no_utc_instant = "has no UTC instant inside the years 1 to 9999"

unfoldable pub no_room : SelectedPolicy → String → String
no_room policy rule_id = append "leaves no room for its " (
    append rule_id (
      append " deadline under Class "
        (append (class_value policy.profile.certification_class) " before the end of year 9999")))

-- A deadline that is computed and not used.
abbrev pub Attempt : Type 0
Attempt = Result (Unit {0})

abbrev pub attempt {ℓ} : {A : Type ℓ} → Result A → Attempt
attempt m = m >>= λ _. ok tt

-- `_clock_deadlines`: each deadline with the id of its rule.
unfoldable pub clock_deadlines :
    SelectedPolicy → ℕ → Option EvaluatedClock → List (String × Attempt)
clock_deadlines policy instant none =
    ("VER-TFR-EVU", attempt (evaluation_deadline policy instant)) ∷ []
clock_deadlines policy instant (some evaluation) =
    (
      "VDR-TFR-PVR",
      attempt (
          response_deadline policy instant evaluation.pain evaluation.is_internet_reachable
            evaluation.is_likely_exploitable),
    )
    ∷ ("VER-TFR-MAV", attempt (acceptance_deadline policy instant))
    ∷ []

-- `try: deadline() except OverflowError: return text`, and on to `rest`.
unfoldable pub catching : Attempt → String → Result (Option String) → Result (Option String)
catching (ok _) text rest = rest
catching (err overflow_error) text rest = ok (some text)
catching (err e) text rest = err e

-- The inner loop of `clock_problem`, and `rest` after it.
unfoldable pub deadline_problem :
    SelectedPolicy → List (String × Attempt) → Result (Option String) → Result (Option String)
unfolding catching
deadline_problem policy [] rest = rest
deadline_problem policy ((rule_id, deadline) ∷ deadlines) rest =
    catching deadline (no_room policy rule_id) (deadline_problem policy deadlines rest)

-- The outer loop.
unfoldable pub policy_problem :
    List SelectedPolicy → ℕ → Option EvaluatedClock → Result (Option String)
policy_problem [] instant evaluation = ok none
policy_problem (policy ∷ policies) instant evaluation =
    deadline_problem policy (clock_deadlines policy instant evaluation)
      (policy_problem policies instant evaluation)

-- After `clock.astimezone(UTC)`, of whose exceptions only the `OverflowError` is caught.
unfoldable pub instant_problem :
    Result ℕ → List SelectedPolicy → Option EvaluatedClock → Result (Option String)
instant_problem (ok instant) policies evaluation = policy_problem policies instant evaluation
instant_problem (err overflow_error) policies evaluation = ok (some no_utc_instant)
instant_problem (err e) policies evaluation = err e

-- `clock_problem`
unfoldable pub clock_problem :
    Datetime → List SelectedPolicy → Option EvaluatedClock → Result (Option String)
clock_problem clock policies evaluation = instant_problem (to_utc clock) policies evaluation

-- `DetectionAttestation`; the mapping is an association list.
pub record DetectionAttestation : Type 0 where
  pub default : Option Datetime
  pub by_tracking_id : List (String × Datetime)

-- `by_tracking_id.get(tracking_id)`
unfoldable pub attested_for : List (String × Datetime) → String → Option Datetime
attested_for [] tracking_id = none
attested_for ((id, clock) ∷ rest) tracking_id =
    if id == tracking_id then some clock else attested_for rest tracking_id

unfoldable or_default : Option Datetime → Option Datetime → Option Datetime
or_default none fallback = fallback
or_default (some clock) fallback = some clock

-- `DetectionAttestation.for_tracking_id`
unfoldable pub for_tracking_id : DetectionAttestation → String → Option Datetime
unfolding or_default
for_tracking_id attestation tracking_id =
    or_default (attested_for attestation.by_tracking_id tracking_id) attestation.default

-- `detection_clock`
unfoldable pub detection_clock : VulnerabilityGroup → DetectionAttestation → Option Datetime
unfolding or_default
detection_clock group attestation =
    or_default group.earliest_observed_at (for_tracking_id attestation group.tracking_id)

-- `_is_system_group`
unfoldable pub is_system_group : VulnerabilityGroup → Bool
is_system_group group = all (λ (o : Observation). not (is_artifact o.origin)) group.observations

-- The instant that a group is detected at, and where it comes from.
abbrev pub Detection : Type 0
Detection = Option ℕ × String

unfoldable attested_detection : Option Datetime → Result Detection
attested_detection none = ok (none, "missing")
attested_detection (some clock) = do at ← to_utc clock; ok (some at, "attestation")

unfoldable observed_detection :
    Option Datetime → VulnerabilityGroup → DetectionAttestation → Result Detection
unfolding attested_detection
observed_detection none group attestation =
    attested_detection (for_tracking_id attestation group.tracking_id)
observed_detection (some observed) group attestation = do
  at ← to_utc observed
  ok (
    some at,
    (if is_system_group group
        then "system"
        else if has_partial_timestamps group
        then "artifact-partial"
        else "artifact"),
  )

-- `resolve_detection_time`
unfoldable pub resolve_detection_time : VulnerabilityGroup → DetectionAttestation → Result Detection
unfolding observed_detection
resolve_detection_time group attestation =
    observed_detection group.earliest_observed_at group attestation

-- `published_tracking_id`
published_under : Option String → String → String
published_under none own = own
published_under (some override) own = override

unfoldable pub published_tracking_id : VulnerabilityGroup → Option EvaluationInput → String
unfolding published_under
published_tracking_id group none = group.tracking_id
published_tracking_id group (some evaluation) =
    published_under evaluation.tracking_id group.tracking_id
