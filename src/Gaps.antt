-- ===== src/Gaps.antt =====
-- reports/gaps.py: the context key under which a closed coverage window becomes a case.
pub mod Keys
mod Tests
use Prim.Native.String.{◌++◌}
use comply_roll.Common.{
  Bool, true, false, not, ◌||◌, ◌&&◌, String, Option, none, some, is_none, if◌then◌else◌, ◌==◌,
}
use comply_roll.Coverage.Clock.{subject}
use comply_roll.Coverage.Collect.{same_ref}
use comply_roll.Coverage.Window.{CoverageWindow}
use comply_roll.Errors.{Result, ok, value_error, refuse_if, ◌>>=◌, ◌>>◌}
use comply_roll.Inventory.{InformationResource, ref_of}

-- `entry is not None and (window.key.resource is None or entry.ref != subject)`
unfoldable is_foreign : CoverageWindow → Option InformationResource → Bool
is_foreign window none = false
is_foreign window (some entry) =
    is_none window.key.resource || not (same_ref (ref_of entry) (subject window.key))

-- `entry is not None and entry.job`
unfoldable job_of : Option InformationResource → Option String
job_of none = none
job_of (some entry) = elim entry.job [
  | none ↦ none
  | some job ↦ if job == "" then none else some job
]

-- The two forms of the key.
unfoldable pub job_key : String → String → String
job_key rule_id job = rule_id ++ (":job:" ++ job)

unfoldable pub resource_key : String → String → String → String
resource_key rule_id resource_type resource_id =
    rule_id ++ (":resource:" ++ (resource_type ++ (":" ++ resource_id)))

unfoldable form_of : CoverageWindow → Option String → String
unfolding job_key resource_key
form_of window none =
    resource_key window.key.rule_id (subject window.key).resource_type
      (subject window.key).resource_id
form_of window (some job) = job_key window.key.rule_id job

-- `coverage_gap_context_key`
unfoldable pub coverage_gap_context_key :
    CoverageWindow → Option InformationResource → Result String
unfolding is_foreign job_of form_of
coverage_gap_context_key window entry = do
  refuse_if (is_foreign window entry) (value_error "entry")
  ok (form_of window (job_of entry))
