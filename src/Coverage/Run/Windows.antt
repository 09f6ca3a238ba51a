-- ===== src/Coverage/Run/Windows.antt =====
-- reports/coverage.py, `_run`: the verifications around a recorded window.
use native.Mathlib.Nat.{le_trans}
use comply_roll.Common.{
  ℕ, Bool, ◌≤◌, ◌<◌, ◌≡◌, sym, subst, true, Option, none, some, List, [], ◌∷◌, ◌++◌, ◌⊎◌, inl, inr,
  leb, length, All, All-append, All-imp, leb→le, arith,
}
use comply_roll.Coverage.Clock.{ClockKey}
use comply_roll.Coverage.Evidence.{Anchor}
use comply_roll.Coverage.Window.{CoverageWindow}
use comply_roll.Coverage.Run.{
  Walked, Ran, walk, closing, run_from, reaching, start_of, is_lapsed, until, drop, last_of,
}
use comply_roll.Coverage.Run.Steps.{closing_lem, lapsing_lem, walk_step, run_steps, FinishSteps}
use comply_roll.Coverage.Run.Split.{
  InTimeOrder, IsCut, until-IsCut, last_of-latest, InTimeOrder-prefix, InTimeOrder-suffix,
}
use comply_roll.Coverage.Run.Gaps.{reaching_lem, start_le}
use comply_roll.Errors.{Result, ok}
use comply_roll.Policy.{PolicyDeadline, RuleForce}

abbrev pub HasResumed : Option ℕ → ℕ → Type 0
HasResumed none at = ⊥
HasResumed (some resumed) at = resumed ≤ at

-- The verification lies outside the lapse of the window.
abbrev pub IsOutside : CoverageWindow → Anchor → Type 0
IsOutside window a = (a.at ≤ window.deadline.start_at) ⊎ HasResumed window.resumed_at a.at

abbrev pub ClosesFirst : CoverageWindow → ℕ → Option ℕ → Type 0
ClosesFirst window as_of none = window.deadline.due_at < as_of
ClosesFirst window as_of (some resumed) = window.deadline.due_at < resumed

abbrev IsSound : ℕ → ℕ → List Anchor → CoverageWindow → Type 0
IsSound as_of start anchors window =
    (start ≤ window.deadline.start_at)
    × All (IsOutside window) anchors
    × ClosesFirst window as_of window.resumed_at

-- What a window says of all the verifications of its clock.
abbrev pub IsFaithful : ℕ → List Anchor → CoverageWindow → Type 0
IsFaithful as_of anchors window =
    All (IsOutside window) anchors × ClosesFirst window as_of window.resumed_at

IsOutside-later :
    (window : CoverageWindow) (resumed : ℕ) (anchors : List Anchor)
    → window.resumed_at ≡ some resumed
    → All (λ b. leb resumed b.at ≡ true) anchors
    → All (IsOutside window) anchors
IsOutside-later window resumed [] e o = tt
IsOutside-later window resumed (a ∷ rest) e o =
    (inr (rw e (leb→le resumed a.at o.0)), IsOutside-later window resumed rest e o.1)

past_of :
    (as_of due : ℕ) (decommissioned_at : Option ℕ)
    → is_lapsed as_of due decommissioned_at ≡ true
    → due < as_of
unfolding is_lapsed
past_of as_of due none h = ground arith
past_of as_of due (some stopped) h = ground arith

module _ (deadline_at : ℕ → Result PolicyDeadline)
    (honest : (at : ℕ) (d : PolicyDeadline) → deadline_at at ≡ ok d → d.start_at ≡ at) where
  closed-IsSound :
      (key : ClockKey) (current : Option Anchor) (deadline : PolicyDeadline) (f : Anchor)
      (rest : List Anchor) (as_of start : ℕ) {closed : List CoverageWindow}
      → deadline.start_at ≡ start
      → closing key current deadline f.at ≡ ok closed
      → InTimeOrder (f ∷ rest)
      → All (IsSound as_of start (f ∷ rest)) closed
  closed-IsSound key current deadline f rest as_of start s h o =
      elim (closing_lem key current deadline f.at h) [
        | inl (w, e, late, is) ↦ rw e (
          (
            rw (is.deadline_eq, s) (omega arith),
            (inr (rw is.resumed_eq (omega arith)), IsOutside-later w f.at rest is.resumed_eq o.0),
            rw (is.resumed_eq, is.deadline_eq) late,
          ),
          tt,
        )
        | inr (e, early) ↦ rw e tt
      ]

  walk-IsSound :
      (key : ClockKey) (current : Option Anchor) (deadline : PolicyDeadline) (anchors : List Anchor)
      (as_of start : ℕ) {walked : Walked}
      → deadline_at start ≡ ok deadline
      → InTimeOrder anchors
      → All (λ a. start ≤ a.at) anchors
      → walk deadline_at key current deadline anchors ≡ ok walked
      → All (IsSound as_of start anchors) walked.windows
  walk-IsSound key current deadline [] as_of start {walked} d o l h =
      let e : walked.windows ≡ [] = unfold walk in ground arith in rw e tt
  walk-IsSound key current deadline (f ∷ rest) as_of start {walked} d o l h =
      let st = walk_step deadline_at key current deadline f rest {walked = walked} h in
      rw st.windows_eq (
        All-append (IsSound as_of start (f ∷ rest)) st.closed st.tail.windows
          (closed-IsSound key current deadline f rest as_of start (honest start deadline d)
            st.closes o)
          (All-imp st.tail.windows (λ w s. (omega (arith, s.0, l.0), (inl s.0, s.1), s.2))
            (walk-IsSound key (some f) st.next rest as_of f.at {walked = st.tail} st.falls_due o.1
              (All-imp rest (λ b. leb→le f.at b.at) o.0) st.walks)))

  -- The deadline at the end of the walk runs from the latest verification.
  walk_end :
      (key : ClockKey) (current : Option Anchor) (deadline : PolicyDeadline) (anchors : List Anchor)
      (start : ℕ) {walked : Walked}
      → deadline_at start ≡ ok deadline
      → InTimeOrder anchors
      → All (λ a. start ≤ a.at) anchors
      → walk deadline_at key current deadline anchors ≡ ok walked
      → (start ≤ walked.deadline.start_at) × All (λ a. a.at ≤ walked.deadline.start_at) anchors
  walk_end key current deadline [] start {walked} d o l h =
      let e : walked.deadline ≡ deadline = unfold walk in ground arith in
      (rw (e, honest start deadline d) (omega arith), tt)
  walk_end key current deadline (f ∷ rest) start {walked} d o l h =
      let st = walk_step deadline_at key current deadline f rest {walked = walked} h in
      let tail =
        walk_end key (some f) st.next rest f.at {walked = st.tail} st.falls_due o.1
          (All-imp rest (λ b. leb→le f.at b.at) o.0) st.walks in
      subst (λ (e : PolicyDeadline). (start ≤ e.start_at) × All (λ a. a.at ≤ e.start_at) (f ∷ rest))
        (sym st.deadline_eq) (omega (arith, l.0, tail.0), (tail.0, tail.1))

  early_le :
      (expected_since : ℕ) (anchors later : List Anchor) (current : Option Anchor)
      → IsCut expected_since anchors (until expected_since anchors) later
      → InTimeOrder anchors
      → reaching deadline_at (last_of (until expected_since anchors)) expected_since ≡ ok current
      → All (λ a. a.at ≤ start_of current expected_since) (until expected_since anchors)
  early_le expected_since anchors later current cut o r =
      elim (reaching_lem deadline_at _ expected_since r) [
        | inl e ↦ rw e cut.early
        | inr (a, last, e) ↦ rw e (
            last_of-latest (until expected_since anchors) a
              (InTimeOrder-prefix (until expected_since anchors) later (rw cut.whole o)) last)
      ]

  faithful :
      (as_of start : ℕ) (earlier later : List Anchor) (windows : List CoverageWindow)
      → All (λ a. a.at ≤ start) earlier
      → All (IsSound as_of start later) windows
      → All (IsFaithful as_of (earlier ++ later)) windows
  faithful as_of start earlier later windows early sound =
      All-imp windows
        (λ w s. (
          All-append (IsOutside w) earlier later
              (All-imp earlier (λ a le. inl (le_trans le s.0)) early) s.1,
          s.2,
        ))
        sound

  last-IsSound :
      (key : ClockKey) (as_of start : ℕ) (decommissioned_at : Option ℕ) (examined : Bool)
      (walked : Walked) (ran : Ran) (anchors : List Anchor)
      → (st : FinishSteps deadline_at key as_of decommissioned_at examined walked ran)
      → start ≤ walked.deadline.start_at
      → All (λ a. a.at ≤ walked.deadline.start_at) anchors
      → All (IsSound as_of start anchors) st.last
  last-IsSound key as_of start decommissioned_at examined walked ran anchors st le all =
      elim (lapsing_lem key walked.anchor walked.deadline _ st.lapses) [
        | inl (w, e, l, is) ↦ rw e (
          (
            rw is.deadline_eq le,
            All-imp anchors (λ a h. inl (rw is.deadline_eq h)) all,
            rw (is.resumed_eq, is.deadline_eq)
                (past_of as_of walked.deadline.due_at decommissioned_at l),
          ),
          tt,
        )
        | inr (e, l) ↦ rw e tt
      ]

  -- ??
  pub run_windows :
      (key : ClockKey) (force : RuleForce) (as_of expected_since : ℕ) (decommissioned_at : Option ℕ)
      (anchors : List Anchor) (examined : Bool) (ran : Ran)
      → InTimeOrder anchors
      → expected_since ≤ as_of
      → run_from deadline_at key force as_of expected_since decommissioned_at anchors examined
        ≡ ok ran
      → All (IsFaithful as_of anchors) ran.windows
  run_windows key force as_of expected_since decommissioned_at anchors examined ran o p h =
      let st =
        run_steps deadline_at key force as_of expected_since decommissioned_at anchors examined ran
          p h in
      let earlier = until expected_since anchors in
      let later = drop (length earlier) anchors in
      let cut = until-IsCut expected_since anchors o in
      let start = start_of st.current expected_since in
      let early = early_le expected_since anchors later st.current cut o st.reaches in
      let ordered = InTimeOrder-suffix earlier later (rw cut.whole o) in
      let le = start_le deadline_at expected_since anchors later st.current cut st.reaches in
      let after =
        All-imp {Q = λ (a : Anchor). start ≤ a.at} later (λ a late. omega arith) cut.late in
      let end =
        walk_end key st.current st.deadline later start {walked = st.walked} st.falls_due ordered
          after st.walks in
      rw st.finishes.windows_eq (
        subst (λ l. All (IsFaithful as_of l) (st.walked.windows ++ st.finishes.last)) cut.whole
          (faithful as_of start earlier later (st.walked.windows ++ st.finishes.last) early (
            All-append (IsSound as_of start later) st.walked.windows st.finishes.last
              (walk-IsSound key st.current st.deadline later as_of start {walked = st.walked}
                st.falls_due ordered after st.walks)
              (last-IsSound key as_of start decommissioned_at examined st.walked ran later
                st.finishes end.0 end.1))))
