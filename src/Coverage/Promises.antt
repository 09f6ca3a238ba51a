-- ===== src/Coverage/Promises.antt =====
-- reports/coverage.py: `_run` under the deadlines of a policy.
use comply_roll.Common.{
  ℕ, Bool, ◌≤◌, ◌≡◌, true, Option, some, none, List, ◌⊎◌, All, Any, String, ◌∙◌,
}
use comply_roll.Coverage.Clock.{ClockKey}
use comply_roll.Coverage.Evidence.{Anchor}
use comply_roll.Coverage.Run.{Ran, run}
use comply_roll.Coverage.Run.Gaps.{Covers, InGap, IsRunning, run_records}
use comply_roll.Coverage.Run.Windows.{IsFaithful, run_windows}
use comply_roll.Coverage.Run.Refusals.{StandsIn, IsOwn, Computes, run_returns}
use comply_roll.Coverage.Run.Split.{InTimeOrder}
use comply_roll.Coverage.Run.Status.{run_current, run_stale}
use comply_roll.Coverage.Window.{CoverageStatus}
use comply_roll.Errors.{ok}
use comply_roll.Policy.{PolicyDeadline, RuleForce, SelectedPolicy, SelectedRule}
use comply_roll.Policy.Deadlines.{coverage_deadline, find_rule}
use comply_roll.Policy.Deadlines.Laws.{coverage_deadline_lem}

honest_deadline :
    (policy : SelectedPolicy) (rule_id : String) (at : ℕ) (d : PolicyDeadline)
    → coverage_deadline policy rule_id at ≡ ok d
    → d.start_at ≡ at
honest_deadline policy rule_id at d h = (coverage_deadline_lem policy rule_id at {deadline = d} h).5

IsOwn-deadline :
    (policy : SelectedPolicy) (key : ClockKey) (force : RuleForce) (rule : SelectedRule)
    → find_rule policy.rules key.rule_id ≡ ok rule
    → force ≡ rule.force
    → (at : ℕ) (d : PolicyDeadline) → coverage_deadline policy key.rule_id at ≡ ok d
    → IsOwn key force d
IsOwn-deadline policy key force rule found same at d h =
    let (r, e, _, id, f, _, _) = coverage_deadline_lem policy key.rule_id at {deadline = d} h in
    (id, f ∙ cc)

module _ (policy : SelectedPolicy) (key : ClockKey) (force : RuleForce) (as_of expected_since : ℕ)
    (decommissioned_at : Option ℕ) (anchors : List Anchor) (examined : Bool)
    (ordered : InTimeOrder anchors) where
  -- For verifications in time order, no lapse of a clock goes unrecorded: an instant from
  -- expectedSince to as-of, not after a decommissioning, lies inside the window that runs from
  -- expectedSince or from a verification, or else inside a recorded lapse, after its window closed
  -- and before its clock resumed.
  pub run-records :
      (ran : Ran) (t : ℕ)
      → run key force policy as_of expected_since decommissioned_at anchors examined ≡ ok ran
      → expected_since ≤ t
      → t ≤ as_of
      → IsRunning t decommissioned_at
      → Covers (coverage_deadline policy key.rule_id) t expected_since
        ⊎ Any (λ a. Covers (coverage_deadline policy key.rule_id) t a.at) anchors
        ⊎ Any (InGap t) ran.windows
  unfolding run
  run-records ran t h =
      run_records (coverage_deadline policy key.rule_id) key force as_of expected_since
        decommissioned_at anchors examined ran t ordered h

  -- For verifications in time order and an expectedSince not after as-of, no recorded lapse is
  -- false: every verification of the clock lies at or before the instant that the lapsed window
  -- ran from, or at or after the instant at which the clock resumed; and the window closed
  -- strictly before that instant, or before as-of where the clock has not resumed.
  pub run-windows :
      (ran : Ran)
      → expected_since ≤ as_of
      → run key force policy as_of expected_since decommissioned_at anchors examined ≡ ok ran
      → All (IsFaithful as_of anchors) ran.windows
  unfolding run
  run-windows ran begun h =
      run_windows (coverage_deadline policy key.rule_id) (honest_deadline policy key.rule_id) key
        force as_of expected_since decommissioned_at anchors examined ran ordered begun h

  -- For verifications in time order, an expectedSince not after as-of and a clock that is not
  -- stopped before as-of: a clock that reads current was examined, and a verification holds it,
  -- whose deadline is the clock's and has not passed at as-of.
  pub run-current :
      (ran : Ran)
      → expected_since ≤ as_of
      → run key force policy as_of expected_since decommissioned_at anchors examined ≡ ok ran
      → ran.clock.status ≡ CoverageStatus.current
      → IsRunning as_of decommissioned_at
      → (examined ≡ true)
        × Any
            (λ a.
              (d : PolicyDeadline) × (coverage_deadline policy key.rule_id a.at ≡ ok d)
              × (as_of ≤ d.due_at)
              × (ran.clock.deadline ≡ some d))
            anchors
  unfolding run
  run-current ran begun h =
      run_current (coverage_deadline policy key.rule_id) key force as_of expected_since
        decommissioned_at anchors examined ran ordered begun h

  -- For verifications in time order and an expectedSince not after as-of: a clock that reads stale
  -- was examined, and its run recorded a lapse that has not resumed, of the window whose deadline
  -- the clock carries.
  pub run-stale :
      (ran : Ran)
      → expected_since ≤ as_of
      → run key force policy as_of expected_since decommissioned_at anchors examined ≡ ok ran
      → ran.clock.status ≡ CoverageStatus.stale
      → (examined ≡ true)
        × Any (λ w. (w.resumed_at ≡ none) × (ran.clock.deadline ≡ some w.deadline)) ran.windows
  unfolding run
  run-stale ran begun h =
      run_stale (coverage_deadline policy key.rule_id) key force as_of expected_since
        decommissioned_at anchors examined ran ordered begun h

  -- No constructor refuses what a run builds: for verifications in time order, if the force is that
  -- of the clock's rule, each
  -- verification names a stand-in exactly when the clock is a sample group's, and the deadlines
  -- from expectedSince and from each verification can be computed, then the run returns.
  pub run-returns :
      (rule : SelectedRule)
      → find_rule policy.rules key.rule_id ≡ ok rule
      → force ≡ rule.force
      → All (λ a. StandsIn key (some a)) anchors
      → All (λ a. Computes (coverage_deadline policy key.rule_id) a.at) anchors
      → Computes (coverage_deadline policy key.rule_id) expected_since
      → (ran : Ran) × (run key force policy as_of expected_since decommissioned_at anchors examined
          ≡ ok ran)
  unfolding run
  run-returns rule found same stands each declared =
      run_returns (coverage_deadline policy key.rule_id) key force
        (IsOwn-deadline policy key force rule found same) as_of expected_since decommissioned_at
        anchors examined ordered stands each declared
