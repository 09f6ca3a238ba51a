-- ===== src/Coverage/Run/Status.antt =====
-- reports/coverage.py, `_run`: the status of a clock and its verifications.
use comply_roll.Common.{
  ℕ, Bool, ◌≤◌, ◌≡◌, refl, sym, subst, ◌∙◌, true, false, Option, none, some, List, [], ◌∷◌, ◌⊎◌,
  inl, inr, length, Any, Any-append_left, Any-append_right, arith, ap,
}
use comply_roll.Coverage.Clock.{ClockKey}
use comply_roll.Coverage.Evidence.{Anchor}
use comply_roll.Coverage.Window.{CoverageStatus}
use comply_roll.Coverage.Run.{
  Walked, Ran, walk, run_from, reaching, start_of, is_lapsed, until, drop, last_of, status_of,
}
use comply_roll.Coverage.Run.Gaps.{reaching_lem, IsRunning}
use comply_roll.Coverage.Run.Split.{InTimeOrder, IsCut, until-IsCut, last_of-Any}
use comply_roll.Coverage.Run.Steps.{walk_step, run_steps, RunSteps, lapsing_lem}
use comply_roll.Errors.{Result, ok}
use comply_roll.Policy.{PolicyDeadline, RuleForce}

current_of :
    (examined : Bool) (anchor : Option Anchor) (lapsed : Bool)
    → status_of examined anchor lapsed ≡ CoverageStatus.current
    → (a : Anchor) × (anchor ≡ some a) × (examined ≡ true) × (lapsed ≡ false)
unfolding status_of
current_of false anchor lapsed e = cc
current_of true none lapsed e = cc
current_of true (some a) true e = cc
current_of true (some a) false e = (a, refl, refl, refl)

stale_of :
    (examined : Bool) (anchor : Option Anchor) (lapsed : Bool)
    → status_of examined anchor lapsed ≡ CoverageStatus.stale
    → (examined ≡ true) × (lapsed ≡ true)
unfolding status_of
stale_of examined anchor lapsed e = ground arith

running_due :
    (as_of due : ℕ) (decommissioned_at : Option ℕ)
    → IsRunning as_of decommissioned_at
    → is_lapsed as_of due decommissioned_at ≡ false
    → as_of ≤ due
unfolding is_lapsed
running_due as_of due none r e = ground arith
running_due as_of due (some stopped) r e = ground arith

module _ (deadline_at : ℕ → Result PolicyDeadline) where
  -- The anchor that a walk ends on is the one it began with, or a verification on its way; its
  -- deadline is that of the anchor.
  walk_anchor :
      (key : ClockKey) (current : Option Anchor) (deadline : PolicyDeadline) (anchors : List Anchor)
      (e : ℕ) {walked : Walked}
      → deadline_at (start_of current e) ≡ ok deadline
      → walk deadline_at key current deadline anchors ≡ ok walked
      → (deadline_at (start_of walked.anchor e) ≡ ok walked.deadline)
        × ((walked.anchor ≡ current) ⊎ Any (λ a. walked.anchor ≡ some a) anchors)
  walk_anchor key current deadline [] e {walked} d h =
      let same : (walked.anchor ≡ current) × (walked.deadline ≡ deadline) =
        unfold walk in ground arith in
      (rw (same.0, same.1) d, inl same.0)
  walk_anchor key current deadline (f ∷ rest) e {walked} d h =
      let st = walk_step deadline_at key current deadline f rest {walked = walked} h in
      let (due, found) =
        walk_anchor key (some f) st.next rest e {walked = st.tail} st.falls_due st.walks in
      (rw (st.anchor_eq, st.deadline_eq) due, inr (onward f rest st.tail.anchor st.anchor_eq found))
    where
      onward :
          (f : Anchor) (rest : List Anchor) (tail : Option Anchor)
          → walked.anchor ≡ tail
          → (tail ≡ some f) ⊎ Any (λ a. tail ≡ some a) rest
          → (walked.anchor ≡ some f) ⊎ Any (λ a. walked.anchor ≡ some a) rest
      onward f rest tail e found = rw e found

  Any-anchor :
      (P : Anchor → Type 0) (anchor : Option Anchor) (a : Anchor) (anchors : List Anchor)
      → anchor ≡ some a
      → Any (λ b. anchor ≡ some b) anchors
      → P a
      → Any P anchors
  Any-anchor P anchor a [] e h p = elim h [ ]
  Any-anchor P anchor a (b ∷ rest) e (inl h) p = inl (subst P (cc) p)
  Any-anchor P anchor a (b ∷ rest) e (inr h) p = inr (Any-anchor P anchor a rest e h p)

  -- The anchor of a run, if it has one, is among the verifications.
  run_anchor :
      (expected_since : ℕ) (anchors later : List Anchor) (current last : Option Anchor)
      → IsCut expected_since anchors (until expected_since anchors) later
      → reaching deadline_at (last_of (until expected_since anchors)) expected_since ≡ ok current
      → (last ≡ current) ⊎ Any (λ a. last ≡ some a) later
      → (last ≡ none) ⊎ Any (λ a. last ≡ some a) anchors
  run_anchor e anchors later current last cut r (inr found) = inr (
      subst (Any (λ a. last ≡ some a)) cut.whole
        (Any-append_right (λ a. last ≡ some a) (until e anchors) later found))
  run_anchor e anchors later current last cut r (inl same) = elim (reaching_lem deadline_at _ e r) [
    | inl q ↦ inl (same ∙ q)
    | inr (a, found, q) ↦ inr (
        subst (Any (λ b. last ≡ some b)) cut.whole (
          Any-append_left (λ b. last ≡ some b) (until e anchors) later
            (last_of-Any (λ b. last ≡ some b) (until e anchors) a found (same ∙ q))))
  ]

  module _ (key : ClockKey) (force : RuleForce) (as_of expected_since : ℕ)
      (decommissioned_at : Option ℕ) (anchors : List Anchor) (examined : Bool) (ran : Ran)
      (ordered : InTimeOrder anchors) (begun : expected_since ≤ as_of)
      (runs : run_from deadline_at key force as_of expected_since decommissioned_at anchors examined
        ≡ ok ran) where
    steps : RunSteps deadline_at key as_of expected_since decommissioned_at anchors examined ran
    steps =
        run_steps deadline_at key force as_of expected_since decommissioned_at anchors examined ran
          begun runs

    pub run_current :
        ran.clock.status ≡ CoverageStatus.current
        → IsRunning as_of decommissioned_at
        → (examined ≡ true)
          × Any
              (λ a.
                (d : PolicyDeadline) × (deadline_at a.at ≡ ok d)
                × (as_of ≤ d.due_at)
                × (ran.clock.deadline ≡ some d))
              anchors
    run_current e r =
        let st = steps in
        let fin = st.finishes in
        let (a, named, seen, kept) =
          current_of examined st.walked.anchor _ (sym fin.status_eq ∙ e) in
        let later = drop (length (until expected_since anchors)) anchors in
        let (due, found) =
          walk_anchor key st.current st.deadline later expected_since {walked = st.walked}
            st.falls_due st.walks in
        (
          seen,
          elim (run_anchor expected_since anchors later st.current st.walked.anchor
              (until-IsCut expected_since anchors ordered) st.reaches found) [
                | inl no_anchor ↦ cc
                | inr among ↦ Any-anchor _ st.walked.anchor a anchors named among (
                  st.walked.deadline,
                  subst (λ b. deadline_at (start_of b expected_since) ≡ ok st.walked.deadline) named
                      due,
                  running_due as_of st.walked.deadline.due_at decommissioned_at r kept,
                  fin.deadline_eq,
                )
              ],
        )

    pub run_stale :
        ran.clock.status ≡ CoverageStatus.stale
        → (examined ≡ true)
          × Any (λ w. (w.resumed_at ≡ none) × (ran.clock.deadline ≡ some w.deadline)) ran.windows
    run_stale e =
        let st = steps in
        let fin = st.finishes in
        let (seen, lapsed) = stale_of examined st.walked.anchor _ (sym fin.status_eq ∙ e) in
        (
          seen,
          rw fin.windows_eq (
              Any-append_right _ st.walked.windows fin.last
                (elim (lapsing_lem key st.walked.anchor st.walked.deadline _ fin.lapses) [
                  | inl (w, one, _, is) ↦
                      rw one (inl (is.resumed_eq, fin.deadline_eq ∙ ap some (sym is.deadline_eq)))
                  | inr (_, kept) ↦ cc
                ])),
        )
