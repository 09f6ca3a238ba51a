-- ===== src/Coverage/Derive/Summaries.antt =====
-- The rows of the summary of reports/coverage.py.
use comply_roll.Common.{
  ℕ, ◌+◌, ◌≡◌, ◌==◌, nat_eqb, if◌then◌else◌, String, List, [], ◌∷◌, arith, refl,
}
use comply_roll.Coverage.Derive.{summary, check_summary, count_rule, count_status, same_status}
use comply_roll.Coverage.Projection.{RuleSummary}
use comply_roll.Coverage.Window.{CoverageClock, CoverageStatus}
use comply_roll.Errors.{ok}
use comply_roll.Policy.{RuleForce}

pub count_rule-count_status :
    (rule_id : String) (clocks : List CoverageClock)
    → count_rule rule_id clocks
      ≡ count_status rule_id CoverageStatus.current clocks
        + count_status rule_id CoverageStatus.stale clocks
        + count_status rule_id CoverageStatus.missing clocks
        + count_status rule_id CoverageStatus.unanchored clocks
        + count_status rule_id CoverageStatus.undetermined clocks
unfolding count_rule count_status
count_rule-count_status rule_id [] = omega arith
count_rule-count_status rule_id (clock ∷ rest) =
    ground (arith, count_rule-count_status rule_id rest)

abbrev row_of : String → RuleForce → List CoverageClock → RuleSummary
row_of rule_id force clocks = record {
  rule_id = rule_id;
  force = force;
  expected = count_rule rule_id clocks;
  current = count_status rule_id CoverageStatus.current clocks;
  stale = count_status rule_id CoverageStatus.stale clocks;
  missing = count_status rule_id CoverageStatus.missing clocks;
  unanchored = count_status rule_id CoverageStatus.unanchored clocks;
  undetermined = count_status rule_id CoverageStatus.undetermined clocks;
}

-- What a status is counted as.
abbrev pub rank : CoverageStatus → ℕ
rank CoverageStatus.current = 0
rank CoverageStatus.stale = 1
rank CoverageStatus.missing = 2
rank CoverageStatus.unanchored = 3
rank CoverageStatus.undetermined = 4

-- How many clocks of a rule read a status.
abbrev pub reading : String → ℕ → List CoverageClock → ℕ
reading rule_id status [] = 0
reading rule_id status (clock ∷ rest) =
    if clock.key.rule_id == rule_id
    then (if nat_eqb (rank clock.status) status then 1 else 0) + reading rule_id status rest
    else reading rule_id status rest

-- How many clocks there are of a rule.
abbrev pub clocks_under : String → List CoverageClock → ℕ
clocks_under rule_id [] = 0
clocks_under rule_id (clock ∷ rest) =
    (if clock.key.rule_id == rule_id then 1 else 0) + clocks_under rule_id rest

same_status-rank : (s t : CoverageStatus) → same_status s t ≡ nat_eqb (rank s) (rank t)
same_status-rank s t = ground arith

count_status-reading :
    (rule_id : String) (status : CoverageStatus) (clocks : List CoverageClock)
    → count_status rule_id status clocks ≡ reading rule_id (rank status) clocks
unfolding count_status
count_status-reading rule_id status [] = refl
count_status-reading rule_id status (clock ∷ rest) =
    rw (same_status-rank clock.status status)
      (ground (arith, count_status-reading rule_id status rest))

count_rule-clocks_under :
    (rule_id : String) (clocks : List CoverageClock)
    → count_rule rule_id clocks ≡ clocks_under rule_id clocks
unfolding count_rule
count_rule-clocks_under rule_id [] = refl
count_rule-clocks_under rule_id (clock ∷ rest) =
    ground (arith, count_rule-clocks_under rule_id rest)

-- The summary of a rule is never refused. Its row names the rule, expects as many clocks as there
-- are of the rule, and under each status holds the number of them that read that status.
pub summary_lem :
    (rule_id : String) (force : RuleForce) (clocks : List CoverageClock)
    → (row : RuleSummary) × (summary rule_id force clocks ≡ ok row)
      × (row.rule_id ≡ rule_id)
      × (row.expected ≡ clocks_under rule_id clocks)
      × (row.current ≡ reading rule_id 0 clocks)
      × (row.stale ≡ reading rule_id 1 clocks)
      × (row.missing ≡ reading rule_id 2 clocks)
      × (row.unanchored ≡ reading rule_id 3 clocks)
      × (row.undetermined ≡ reading rule_id 4 clocks)
unfolding summary check_summary
summary_lem rule_id force clocks =
    let n = count_rule-count_status rule_id clocks in
    (
      row_of rule_id force clocks,
      ground (arith, n),
      refl,
      count_rule-clocks_under rule_id clocks,
      count_status-reading rule_id CoverageStatus.current clocks,
      count_status-reading rule_id CoverageStatus.stale clocks,
      count_status-reading rule_id CoverageStatus.missing clocks,
      count_status-reading rule_id CoverageStatus.unanchored clocks,
      count_status-reading rule_id CoverageStatus.undetermined clocks,
    )
