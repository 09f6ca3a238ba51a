-- ===== src/Coverage/Run/Gaps.antt =====
-- reports/coverage.py, `_run`: the instants that the windows of a clock cover.
use comply_roll.Common.{
  ℕ, Bool, if◌then◌else◌, ◌≤◌, ◌<◌, ◌≡◌, refl, subst, true, false, Option, none, some, List, [],
  ◌∷◌, ◌++◌, ◌⊎◌, inl, inr, leb, length, Any, Any-append_left, Any-append_right, leb→le, Bool-cases,
  arith,
}
use comply_roll.Coverage.Clock.{ClockKey}
use comply_roll.Coverage.Evidence.{Anchor}
use comply_roll.Coverage.Window.{CoverageWindow}
use comply_roll.Coverage.Run.{
  Walked, Ran, walk, closing, run_from, reaching, start_of, is_lapsed, until, drop, last_of,
}
use comply_roll.Coverage.Run.Steps.{closing_lem, lapsing_lem, walk_step, run_steps, FinishSteps}
use comply_roll.Coverage.Run.Split.{InTimeOrder, IsCut, until-IsCut, last_of_All, last_of-Any}
use comply_roll.Errors.{Result, ok, >>=-eq-ok}
use comply_roll.Policy.{PolicyDeadline, RuleForce}

abbrev pub IsBefore : ℕ → Option ℕ → Type 0
IsBefore t none = Unit
IsBefore t (some resumed) = t < resumed

-- The instant lies after the window closed and before its clock resumed.
abbrev pub InGap : ℕ → CoverageWindow → Type 0
InGap t window = (window.deadline.due_at < t) × IsBefore t window.resumed_at

-- The clock has not stopped before `t`.
abbrev pub IsRunning : ℕ → Option ℕ → Type 0
IsRunning t none = Unit
IsRunning t (some stopped) = t ≤ stopped

lapsed_of :
    (as_of due t : ℕ) (decommissioned_at : Option ℕ)
    → due < t
    → t ≤ as_of
    → IsRunning t decommissioned_at
    → is_lapsed as_of due decommissioned_at ≡ true
unfolding is_lapsed
lapsed_of as_of due t none p q r = ground arith
lapsed_of as_of due t (some stopped) p q r = ground arith

module _ (deadline_at : ℕ → Result PolicyDeadline) where
  -- A clock that runs from `start` has not fallen due at `t`.
  abbrev pub Covers : ℕ → ℕ → Type 0
  Covers t start = (d : PolicyDeadline) × (deadline_at start ≡ ok d) × (start ≤ t) × (t ≤ d.due_at)

  abbrev Recorded : ℕ → List Anchor → List CoverageWindow → Type 0
  Recorded t anchors windows = Any (λ a. Covers t a.at) anchors ⊎ Any (InGap t) windows

  gap_head :
      (key : ClockKey) (current : Option Anchor) (deadline : PolicyDeadline) (at t : ℕ)
      {closed : List CoverageWindow}
      → closing key current deadline at ≡ ok closed
      → t < at
      → deadline.due_at < t
      → Any (InGap t) closed
  gap_head key current deadline at t h before past = elim (closing_lem key current deadline at h) [
    | inl (w, e, late, is) ↦ rw e (inl (rw is.deadline_eq past, rw is.resumed_eq before))
    | inr (e, early) ↦ absurd (omega arith)
  ]

  onward :
      (start t : ℕ) (f : Anchor) (rest : List Anchor) (closed : List CoverageWindow)
      (tail whole : Walked)
      → Covers t f.at ⊎ Recorded t rest tail.windows ⊎ (tail.deadline.due_at < t)
      → whole.windows ≡ closed ++ tail.windows
      → whole.deadline ≡ tail.deadline
      → Covers t start ⊎ Recorded t (f ∷ rest) whole.windows ⊎ (whole.deadline.due_at < t)
  onward start t f rest closed tail whole (inl c) w e = inr (inl (inl (inl c)))
  onward start t f rest closed tail whole (inr (inl (inl a))) w e = inr (inl (inl (inr a)))
  onward start t f rest closed tail whole (inr (inl (inr g))) w e =
      inr (inl (inr (rw w (Any-append_right (InGap t) closed tail.windows g))))
  onward start t f rest closed tail whole (inr (inr late)) w e = inr (inr (rw e late))

  walk_records :
      (key : ClockKey) (current : Option Anchor) (deadline : PolicyDeadline) (anchors : List Anchor)
      (start t : ℕ) {walked : Walked}
      → deadline_at start ≡ ok deadline
      → start ≤ t
      → walk deadline_at key current deadline anchors ≡ ok walked
      → Covers t start ⊎ Recorded t anchors walked.windows ⊎ (walked.deadline.due_at < t)
  walk_records key current deadline [] start t {walked} d s h =
      elim (Bool-cases (leb t deadline.due_at)) [
        | inl e ↦ inl (deadline, d, s, leb→le t deadline.due_at e)
        | inr e ↦ inr (inr (unfold walk in ground arith))
      ]
  walk_records key current deadline (f ∷ rest) start t {walked} d s h =
      let st = walk_step deadline_at key current deadline f rest {walked = walked} h in
      elim (Bool-cases (leb f.at t)) [
        | inl e ↦
            onward start t f rest st.closed st.tail walked
              (walk_records key (some f) st.next rest f.at t {walked = st.tail} st.falls_due
                (leb→le f.at t e) st.walks)
              st.windows_eq st.deadline_eq
        | inr e ↦ elim (Bool-cases (leb t deadline.due_at)) [
          | inl c ↦ inl (deadline, d, s, leb→le t deadline.due_at c)
          | inr c ↦ inr (
              inl (
                inr (
                  rw st.windows_eq (
                    Any-append_left (InGap t) st.closed st.tail.windows (
                      gap_head key current deadline f.at t st.closes (ground arith)
                        (ground arith))))))
        ]
      ]

  -- What `reaching` chose.
  pub reaching_lem :
      (last : Option Anchor) (expected_since : ℕ) {current : Option Anchor}
      → reaching deadline_at last expected_since ≡ ok current
      → (current ≡ none) ⊎ ((a : Anchor) × (last ≡ some a) × (current ≡ some a))
  unfolding reaching
  reaching_lem none expected_since h = inl (ground arith)
  reaching_lem (some a) expected_since {current} h =
      let (d, _, e) =
        >>=-eq-ok (deadline_at a.at)
          (λ d. ok (if leb expected_since d.due_at then some a else none)) h in
      chosen a (leb expected_since d.due_at) e
    where
      chosen :
          (a : Anchor) (b : Bool) {c : Option Anchor}
          → ◌≡◌ {A = Result (Option Anchor)} (ok (if b then some a else none)) (ok c)
          → (c ≡ none) ⊎ ((x : Anchor) × (some a ≡ some x) × (c ≡ some x))
      chosen a true e = inr (a, refl, ground arith)
      chosen a false e = inl (ground arith)

  abbrev Outcome : ℕ → ℕ → List Anchor → List CoverageWindow → Type 0
  Outcome t expected_since anchors windows =
      Covers t expected_since ⊎ Any (λ a. Covers t a.at) anchors ⊎ Any (InGap t) windows

  ending :
      (key : ClockKey) (as_of : ℕ) (decommissioned_at : Option ℕ) (examined : Bool)
      (walked : Walked) (ran : Ran) (t : ℕ)
      → FinishSteps deadline_at key as_of decommissioned_at examined walked ran
      → t ≤ as_of
      → IsRunning t decommissioned_at
      → walked.deadline.due_at < t
      → Any (InGap t) ran.windows
  ending key as_of decommissioned_at examined walked ran t st q r past = rw st.windows_eq (
      Any-append_right (InGap t) walked.windows st.last
        (elim (lapsing_lem key walked.anchor walked.deadline _ st.lapses) [
          | inl (w, e, _, is) ↦ rw e (inl (rw is.deadline_eq past, rw is.resumed_eq tt))
          | inr (e, f) ↦ cc (f, lapsed_of as_of walked.deadline.due_at t decommissioned_at past q r)
        ]))

  from_start :
      (expected_since t : ℕ) (anchors later : List Anchor) (current : Option Anchor)
      (windows : List CoverageWindow)
      → IsCut expected_since anchors (until expected_since anchors) later
      → reaching deadline_at (last_of (until expected_since anchors)) expected_since ≡ ok current
      → Covers t (start_of current expected_since)
      → Outcome t expected_since anchors windows
  from_start expected_since t anchors later current windows cut r c =
      elim (reaching_lem _ expected_since r) [
        | inl e ↦ inl (subst (λ a. Covers t (start_of a expected_since)) e c)
        | inr (a, last, e) ↦ inr (
            inl (
              subst (Any (λ b. Covers t b.at)) cut.whole (
                Any-append_left (λ b. Covers t b.at) (until expected_since anchors) later
                  (last_of-Any (λ b. Covers t b.at) (until expected_since anchors) a last
                    (subst (λ b. Covers t (start_of b expected_since)) e c)))))
      ]

  pub start_le :
      (expected_since : ℕ) (anchors later : List Anchor) (current : Option Anchor)
      → IsCut expected_since anchors (until expected_since anchors) later
      → reaching deadline_at (last_of (until expected_since anchors)) expected_since ≡ ok current
      → start_of current expected_since ≤ expected_since
  start_le expected_since anchors later current cut r = elim (reaching_lem _ expected_since r) [
    | inl e ↦ rw e (omega arith)
    | inr (a, last, e) ↦
        rw e
          (last_of_All (λ b. b.at ≤ expected_since) (until expected_since anchors) a last cut.early)
  ]

  collect :
      (expected_since t : ℕ) (anchors later : List Anchor) (current : Option Anchor)
      (walked : Walked) (windows last : List CoverageWindow)
      → IsCut expected_since anchors (until expected_since anchors) later
      → reaching deadline_at (last_of (until expected_since anchors)) expected_since ≡ ok current
      → windows ≡ walked.windows ++ last
      → (walked.deadline.due_at < t → Any (InGap t) windows)
      → Covers t (start_of current expected_since)
        ⊎ Recorded t later walked.windows
        ⊎ (walked.deadline.due_at < t)
      → Outcome t expected_since anchors windows
  collect e t anchors later current walked windows last cut r w end (inl c) =
      from_start e t anchors later current windows cut r c
  collect e t anchors later current walked windows last cut r w end (inr (inl (inl a))) = inr (
      inl (
        subst (Any (λ b. Covers t b.at)) cut.whole
          (Any-append_right (λ b. Covers t b.at) (until e anchors) later a)))
  collect e t anchors later current walked windows last cut r w end (inr (inl (inr g))) =
      inr (inr (rw w (Any-append_left (InGap t) walked.windows last g)))
  collect e t anchors later current walked windows last cut r w end (inr (inr past)) =
      inr (inr (end past))

  -- ??
  pub run_records :
      (key : ClockKey) (force : RuleForce) (as_of expected_since : ℕ) (decommissioned_at : Option ℕ)
      (anchors : List Anchor) (examined : Bool) (ran : Ran) (t : ℕ)
      → InTimeOrder anchors
      → run_from deadline_at key force as_of expected_since decommissioned_at anchors examined
        ≡ ok ran
      → expected_since ≤ t
      → t ≤ as_of
      → IsRunning t decommissioned_at
      → Covers t expected_since ⊎ Any (λ a. Covers t a.at) anchors ⊎ Any (InGap t) ran.windows
  run_records key force as_of expected_since decommissioned_at anchors examined ran t o h p q r =
      let st =
        run_steps deadline_at key force as_of expected_since decommissioned_at anchors examined ran
          (omega arith) h in
      let later = drop (length (until expected_since anchors)) anchors in
      let cut = until-IsCut expected_since anchors o in
      let start = start_le expected_since anchors later st.current cut st.reaches in
      collect expected_since t anchors later st.current st.walked ran.windows st.finishes.last cut
        st.reaches st.finishes.windows_eq
        (ending key as_of decommissioned_at examined st.walked ran t st.finishes q r)
        (walk_records key st.current st.deadline later (start_of st.current expected_since) t
          {walked = st.walked} st.falls_due (omega arith) st.walks)
