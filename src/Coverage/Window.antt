-- ===== src/Coverage/Window.antt =====
-- reports/coverage.py: `CoverageClock` and `CoverageWindow`, with what their `__post_init__`
-- refuses.
use comply_roll.Common.{
  ℕ, Bool, true, false, not, ◌&&◌, ◌||◌, Option, none, some, bool_eqb, is_none, is_some, leb, ◌==◌,
}
use comply_roll.Coverage.Clock.{ClockKey}
use comply_roll.Coverage.Evidence.{CoverageEvidence}
use comply_roll.Errors.{Result, ok, value_error, refuse_if, ◌>>◌}
use comply_roll.Models.{ResourceRef}
use comply_roll.Policy.{PolicyDeadline, RuleForce}

pub data AnchorKind : Type 0 where
  verification declared : AnchorKind

pub data CoverageStatus : Type 0 where
  current stale missing unanchored undetermined : CoverageStatus

pub record CoverageClock : Type 0 where
  pub key : ClockKey
  pub force : RuleForce
  pub status : CoverageStatus
  pub anchor : Option AnchorKind
  pub deadline : Option PolicyDeadline
  pub evidence : Option CoverageEvidence
  pub stand_in : Option ResourceRef

pub record CoverageWindow : Type 0 where
  pub key : ClockKey
  pub anchor : AnchorKind
  pub deadline : PolicyDeadline
  pub resumed_at : Option ℕ
  pub evidence : Option CoverageEvidence
  pub stand_in : Option ResourceRef

-- `force is force`
abbrev pub same_force : RuleForce → RuleForce → Bool
same_force RuleForce.must RuleForce.must = true
same_force RuleForce.must_not RuleForce.must_not = true
same_force RuleForce.should RuleForce.should = true
same_force RuleForce.should_not RuleForce.should_not = true
same_force RuleForce.may RuleForce.may = true
same_force _ _ = false

abbrev pub is_verification : Option AnchorKind → Bool
is_verification (some AnchorKind.verification) = true
is_verification _ = false

abbrev pub is_unanchored : CoverageStatus → Bool
is_unanchored CoverageStatus.unanchored = true
is_unanchored _ = false

wrong_deadline : ClockKey → RuleForce → Option PolicyDeadline → Bool
wrong_deadline key force none = false
wrong_deadline key force (some deadline) =
    not (deadline.rule_id == key.rule_id) || not (same_force deadline.force force)

-- `_check_anchor`
unfoldable pub check_anchor :
    ClockKey
    → RuleForce
    → Option AnchorKind
    → Option PolicyDeadline
    → Option CoverageEvidence
    → Option ResourceRef
    → Result (Unit {0})
unfolding wrong_deadline
check_anchor key force anchor deadline evidence stand_in = do
  refuse_if (not (bool_eqb (is_none anchor) (is_none deadline))) (value_error "anchored")
  refuse_if (wrong_deadline key force deadline) (value_error "deadline")
  refuse_if (not (bool_eqb (is_some evidence) (is_verification anchor))) (value_error "evidence")
  refuse_if (not (bool_eqb (is_some stand_in) (is_some key.sample_group && is_verification anchor)))
      (value_error "stand_in")

-- `CoverageClock.__post_init__`
unfoldable pub check_clock : CoverageClock → Result CoverageClock
check_clock clock = do
  refuse_if (not (bool_eqb (is_unanchored clock.status) (is_none clock.anchor)))
      (value_error "unanchored")
  check_anchor clock.key clock.force clock.anchor clock.deadline clock.evidence clock.stand_in
  ok clock

resumes_early : Option ℕ → ℕ → Bool
resumes_early none due = false
resumes_early (some at) due = leb at due

-- `CoverageWindow.__post_init__`
unfoldable pub check_window : CoverageWindow → Result CoverageWindow
unfolding resumes_early
check_window window = do
  check_anchor window.key window.deadline.force (some window.anchor) (some window.deadline)
      window.evidence window.stand_in
  refuse_if (resumes_early window.resumed_at window.deadline.due_at) (value_error "resumed_at")
  ok window
