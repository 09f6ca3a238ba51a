-- ===== src/Coverage/Runs.antt =====
-- reports/coverage.py: the runs of all clocks, each clock once.
use comply_roll.Common.{
  ℕ, Bool, true, false, ◌&&◌, String, Option, none, some, List, [], ◌∷◌, ◌++◌, any, ◌==◌,
  if◌then◌else◌,
}
use comply_roll.Coverage.Clock.{ClockKey, group_clock, psd_rule}
use comply_roll.Coverage.Collect.{Files, same_ref}
use comply_roll.Coverage.Evidence.{Anchor}
use comply_roll.Coverage.Groups.{
  Anchored, Groups, group_anchors, group_decommissioned_at, earliest_expected, any_examined,
}
use comply_roll.Coverage.Run.{Ran, run}
use comply_roll.Coverage.Window.{CoverageClock}
use comply_roll.Errors.{Result, ok, err, key_error, ◌>>=◌}
use comply_roll.Inventory.{InformationResource}
use comply_roll.Models.{ResourceRef}
use comply_roll.Policy.{SelectedPolicy}
use comply_roll.Policy.Deadlines.{find_rule}

abbrev pub Runs : Type 0
Runs = List (ClockKey × Ran)

abbrev pub same_option : Option String → Option String → Bool
same_option none none = true
same_option (some a) (some b) = a == b
same_option _ _ = false

abbrev pub same_resource : Option ResourceRef → Option ResourceRef → Bool
same_resource none none = true
same_resource (some a) (some b) = same_ref a b
same_resource _ _ = false

-- equality of two `ClockKey` values
abbrev pub same_key : ClockKey → ClockKey → Bool
same_key k l =
    (k.rule_id == l.rule_id)
    && same_resource k.resource l.resource
    && same_option k.sample_group l.sample_group

-- `key in runs`
abbrev pub has_run : ClockKey → Runs → Bool
has_run key runs = any (λ p. same_key p.0 key) runs

-- `runs[key]`
unfoldable pub run_at : ClockKey → Runs → Result Ran
run_at key [] = err (key_error "runs")
run_at key ((k, ran) ∷ rest) = if same_key k key then ok ran else run_at key rest

-- The group's clock, over all its members.
run_group : SelectedPolicy → ℕ → Files → Anchored → String → List InformationResource → Result Runs
run_group policy cutoff files anchors name [] = ok []
run_group policy cutoff files anchors name (member ∷ rest) = do
  key ← group_clock name
  rule ← find_rule policy.rules psd_rule
  held ← group_anchors (member ∷ rest) anchors
  examined ← any_examined (member ∷ rest) files.collected
  ran ←
      run key rule.force policy cutoff (earliest_expected member rest)
        (group_decommissioned_at member rest) held examined
  ok ((key, ran) ∷ [])

unfoldable pub run_groups : SelectedPolicy → ℕ → Files → Anchored → Groups → Runs → Result Runs
unfolding run_group
run_groups policy cutoff files anchors [] runs = ok runs
run_groups policy cutoff files anchors ((name, members) ∷ rest) runs = do
  own ← run_group policy cutoff files anchors name members
  run_groups policy cutoff files anchors rest (runs ++ own)

-- The clocks of one entry that no run has yet.
unfoldable pub run_clocks :
    SelectedPolicy
    → ℕ
    → InformationResource
    → List Anchor
    → Bool
    → List ClockKey
    → Runs
    → Result Runs
run_clocks policy cutoff entry anchors examined [] runs = ok runs
run_clocks policy cutoff entry anchors examined (key ∷ rest) runs = do
  grown ←
      (if has_run key runs then ok runs else (do
        rule ← find_rule policy.rules key.rule_id
        ran ←
            run key rule.force policy cutoff entry.expected_since entry.decommissioned_at anchors
              examined
        ok (runs ++ (key, ran) ∷ [])))
  run_clocks policy cutoff entry anchors examined rest grown

unfoldable pub clocks_of : List ClockKey → Runs → Result (List CoverageClock)
clocks_of [] runs = ok []
clocks_of (key ∷ rest) runs = do
  ran ← run_at key runs
  others ← clocks_of rest runs
  ok (ran.clock ∷ others)
