-- ===== src/Coverage/Derive.antt =====
-- reports/coverage.py: `derive_coverage` and the summary of its clocks.
pub mod Summaries
use Prim.Native.Nat.{max}
use mathlib.Core.List.{map}
use comply_roll.Common.{
  ℕ, suc, ◌+◌, Bool, true, false, not, ◌&&◌, String, Option, none, some, List, [], ◌∷◌, ◌++◌,
  nat_eqb, ◌==◌, if◌then◌else◌,
}
use comply_roll.Common.Order.{nat_order}
use comply_roll.Common.Order.Text.{string_order}
use comply_roll.Common.Order.Tuple.{pair_order}
use comply_roll.Common.Sort.{sorted}
use comply_roll.Coverage.Clock.{SortKey, clock_sort_key, entry_clocks}
use comply_roll.Coverage.Collect.{Files, Counts, collect, found_at}
use comply_roll.Coverage.Evidence.{Timed, ordered, is_attestation}
use comply_roll.Coverage.Groups.{Anchored, anchor_all, anchors_at, groups_of, has_examined}
use comply_roll.Coverage.Projection.{
  CoverageResult, ResourceCoverage, RuleSummary, UnregisteredResource,
}
use comply_roll.Coverage.Runs.{Runs, run_groups, run_clocks, clocks_of}
use comply_roll.Coverage.Window.{CoverageClock, CoverageWindow, CoverageStatus}
use comply_roll.Errors.{Result, ok, value_error, refuse_if, ◌>>=◌, ◌>>◌}
use comply_roll.Instant.{Datetime, to_utc}
use comply_roll.Inventory.{Inventory, InformationResource, ref_of, ref_key}
use comply_roll.Models.{Observation, ResourceRef}
use comply_roll.Policy.{RuleForce, SelectedPolicy}
use comply_roll.Policy.Deadlines.{coverage_rule_ids, find_rule}

-- `max((at for at, _ in items), default=None)`
latest : List Timed → Option ℕ
latest [] = none
latest ((at, item) ∷ rest) = elim (latest rest) [
  | none ↦ some at
  | some other ↦ some (max at other)
]

count_observations : List Timed → ℕ
count_observations [] = 0
count_observations ((at, item) ∷ rest) =
    if is_attestation item.kind then count_observations rest else suc (count_observations rest)

pub record Covering : Type 0 where
  pub runs : Runs
  pub coverage : ResourceCoverage

-- One entry: its clocks are run, and its coverage is read from what was filed.
cover_entry : SelectedPolicy → ℕ → Files → Anchored → InformationResource → Runs → Result Covering
unfolding latest count_observations
cover_entry policy cutoff files anchors entry runs = do
  found ← found_at (ref_of entry) files.collected
  table ← entry_clocks entry
  held ← anchors_at (ref_of entry) anchors
  grown ← run_clocks policy cutoff entry held (has_examined found.examined) table.clocks runs
  clocks ← clocks_of table.clocks grown
  ok (record {
    runs = grown;
    coverage = record {
      entry = entry;
      clocks = clocks;
      last_examined = latest found.examined;
      last_verified = latest found.verifying;
      examined_observations = count_observations found.examined;
      untimed = ordered found.untimed;
      after_decommission = ordered found.after_decommission;
      warnings = table.warnings;
    };
  })

pub record Covered : Type 0 where
  pub runs : Runs
  pub resources : List ResourceCoverage

cover_entries :
    SelectedPolicy → ℕ → Files → Anchored → List InformationResource → Runs → Result Covered
unfolding cover_entry
cover_entries policy cutoff files anchors [] runs = ok (record { runs = runs; resources = [] })
cover_entries policy cutoff files anchors (entry ∷ rest) runs = do
  one ← cover_entry policy cutoff files anchors entry runs
  covered ← cover_entries policy cutoff files anchors rest one.runs
  ok (record { runs = covered.runs; resources = one.coverage ∷ covered.resources })

abbrev pub same_status : CoverageStatus → CoverageStatus → Bool
same_status CoverageStatus.current CoverageStatus.current = true
same_status CoverageStatus.stale CoverageStatus.stale = true
same_status CoverageStatus.missing CoverageStatus.missing = true
same_status CoverageStatus.unanchored CoverageStatus.unanchored = true
same_status CoverageStatus.undetermined CoverageStatus.undetermined = true
same_status _ _ = false

-- `statuses[status]`, of the clocks of one rule
unfoldable pub count_status : String → CoverageStatus → List CoverageClock → ℕ
count_status rule_id status [] = 0
count_status rule_id status (clock ∷ rest) =
    let others = count_status rule_id status rest in
    if (clock.key.rule_id == rule_id) && same_status clock.status status then suc others else others

-- `sum(statuses.values())`
unfoldable pub count_rule : String → List CoverageClock → ℕ
count_rule rule_id [] = 0
count_rule rule_id (clock ∷ rest) =
    let others = count_rule rule_id rest in
    if clock.key.rule_id == rule_id then suc others else others

-- `RuleSummary.__post_init__`
unfoldable pub check_summary : RuleSummary → Result RuleSummary
check_summary row = do
  refuse_if
      (not (
        nat_eqb row.expected
          (row.current + row.stale + row.missing + row.unanchored + row.undetermined)))
      (value_error "expected")
  ok row

-- `_summary`
unfoldable pub summary : String → RuleForce → List CoverageClock → Result RuleSummary
summary rule_id force clocks = check_summary (record {
  rule_id = rule_id;
  force = force;
  expected = count_rule rule_id clocks;
  current = count_status rule_id CoverageStatus.current clocks;
  stale = count_status rule_id CoverageStatus.stale clocks;
  missing = count_status rule_id CoverageStatus.missing clocks;
  unanchored = count_status rule_id CoverageStatus.unanchored clocks;
  undetermined = count_status rule_id CoverageStatus.undetermined clocks;
})

-- `{rule_id: policy.rule(rule_id).force for rule_id in COVERAGE_RULE_IDS}`
rule_forces : SelectedPolicy → List String → Result (List (String × RuleForce))
rule_forces policy [] = ok []
rule_forces policy (rule_id ∷ rest) = do
  rule ← find_rule policy.rules rule_id
  others ← rule_forces policy rest
  ok ((rule_id, rule.force) ∷ others)

summaries : List (String × RuleForce) → List CoverageClock → Result (List RuleSummary)
summaries [] clocks = ok []
summaries ((rule_id, force) ∷ rest) clocks = do
  row ← summary rule_id force clocks
  others ← summaries rest clocks
  ok (row ∷ others)

abbrev pub all_clocks : Runs → List CoverageClock
all_clocks [] = []
all_clocks ((key, ran) ∷ rest) = ran.clock ∷ all_clocks rest

abbrev pub all_windows : Runs → List CoverageWindow
all_windows [] = []
all_windows ((key, ran) ∷ rest) = ran.windows ++ all_windows rest

-- The windows of the result, by clock and then by the instant that they closed.
unfoldable pub sorted_windows : List CoverageWindow → List CoverageWindow
sorted_windows windows =
    sorted {K = SortKey × ℕ} (λ (w : CoverageWindow). (clock_sort_key w.key, w.deadline.due_at))
      windows

unfoldable pub sorted_unregistered : Counts → List UnregisteredResource
sorted_unregistered counts =
    map (λ p. record { resource = p.0; observations = p.1 })
      (sorted (λ (p : ResourceRef × ℕ). ref_key p.0) counts)

-- `derive_coverage`
unfoldable pub derive_coverage :
    List Observation → Inventory → SelectedPolicy → Datetime → Result CoverageResult
unfolding cover_entries summaries rule_forces
derive_coverage observations inventory policy as_of = do
  cutoff ← to_utc as_of
  forces ← rule_forces policy coverage_rule_ids
  files ← collect observations inventory cutoff
  let anchors = anchor_all files.collected
  grouped ← run_groups policy cutoff files anchors (groups_of inventory.entries []) []
  covered ← cover_entries policy cutoff files anchors inventory.entries grouped
  rows ← summaries forces (all_clocks covered.runs)
  ok (record {
    inventory = inventory;
    as_of = cutoff;
    profile = policy.profile;
    provenance = policy.provenance;
    summary = rows;
    resources = covered.resources;
    windows = sorted_windows (all_windows covered.runs);
    unregistered = sorted_unregistered files.unregistered;
    later = ordered files.later;
  })
