-- ===== src/Coverage/Filed.antt =====
-- reports/coverage.py: `FiledEvidence`, `file_evidence` and `verifying_evidence`.
use Prim.Native.String.{slice, len}
use mathlib.Core.List.{map}
use text.Mathlib.Text.{starts_with}
use comply_roll.Common.{String, Option, none, some, List, [], ◌∷◌, ◌++◌, ◌==◌, if◌then◌else◌}
use comply_roll.Coverage.Clock.{psd_rule}
use comply_roll.Coverage.Collect.{Files, collect, found_at}
use comply_roll.Coverage.Evidence.{CoverageEvidence, Timed, ordered}
use comply_roll.Coverage.Runs.{same_option}
use comply_roll.Errors.{Result, ok, ◌>>=◌}
use comply_roll.Instant.{Datetime, to_utc}
use comply_roll.Inventory.{Inventory, InformationResource, ref_of, entry_for}
use comply_roll.Models.{Observation, ResourceRef}

pub record FiledEvidence : Type 0 where
  pub inventory : Inventory
  pub files : Files

-- `resource_id.removeprefix(SAMPLE_GROUP_PREFIX)`
group_name : String → String
group_name resource_id =
    if starts_with resource_id "sample-group/"
    then slice resource_id 13 (len resource_id)
    else resource_id

group_refs : String → List InformationResource → List ResourceRef
group_refs name [] = []
group_refs name (entry ∷ rest) =
    let others = group_refs name rest in
    if same_option entry.sample_group (some name) then ref_of entry ∷ others else others

entry_refs : Option InformationResource → List ResourceRef
entry_refs none = []
entry_refs (some entry) = ref_of entry ∷ []

verifying_items : List ResourceRef → Files → Result (List CoverageEvidence)
verifying_items [] files = ok []
verifying_items (ref ∷ rest) files = do
  found ← found_at ref files.collected
  others ← verifying_items rest files
  ok (map (λ (t : Timed). t.1) found.verifying ++ others)

-- `FiledEvidence.verifying`
unfoldable pub verifying : FiledEvidence → String → ResourceRef → Result (List CoverageEvidence)
unfolding group_name group_refs entry_refs verifying_items
verifying filed rule_id subject = do
  let refs =
      if rule_id == psd_rule
      then group_refs (group_name subject.resource_id) filed.inventory.entries
      else entry_refs (entry_for filed.inventory subject.resource_type subject.resource_id)
  items ← verifying_items refs filed.files
  ok (ordered items)

-- `file_evidence`
unfoldable pub file_all : List Observation → Inventory → Datetime → Result FiledEvidence
file_all observations inventory as_of = do
  cutoff ← to_utc as_of
  files ← collect observations inventory cutoff
  ok (record { inventory = inventory; files = files })

unfoldable pub verifying_evidence :
    List Observation → Inventory → Datetime → String → ResourceRef → Result (List CoverageEvidence)
verifying_evidence observations inventory as_of rule_id subject = do
  filed ← file_all observations inventory as_of
  verifying filed rule_id subject
