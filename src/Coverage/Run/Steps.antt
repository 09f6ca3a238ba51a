-- ===== src/Coverage/Run/Steps.antt =====
-- reports/coverage.py, `_run`: a run taken apart into its steps.
use comply_roll.Common.{
  ℕ, ◌≤◌, ◌<◌, ◌≡◌, refl, ap, true, false, Bool, Option, none, some, List, [], ◌∷◌, ◌++◌, ◌⊎◌, inl,
  inr, ltb, length, Bool-cases, arith,
}
use comply_roll.Coverage.Clock.{ClockKey}
use comply_roll.Coverage.Evidence.{Anchor}
use comply_roll.Coverage.Window.{CoverageWindow, CoverageClock, check_window, check_clock}
use comply_roll.Coverage.Run.{
  Walked, Ran, walk, closing, make_window, lapsing, finish, run_from, reaching, start_of, is_lapsed,
  until, drop, last_of, status_of,
}
use comply_roll.Errors.{Result, ok, ◌>>=◌, >>=-eq-ok}
use comply_roll.Policy.{PolicyDeadline, RuleForce}

-- A window as `_window` builds it.
pub record IsWindow (key : ClockKey) (deadline : PolicyDeadline) (resumed : Option ℕ)
    (window : CoverageWindow) : Type 0 where
  pub key_eq : window.key ≡ key
  pub deadline_eq : window.deadline ≡ deadline
  pub resumed_eq : window.resumed_at ≡ resumed

make_window_lem :
    (key : ClockKey) (anchor : Option Anchor) (deadline : PolicyDeadline) (resumed : Option ℕ)
    {window : CoverageWindow}
    → make_window key anchor deadline resumed ≡ ok window
    → IsWindow key deadline resumed window
unfolding make_window check_window
make_window_lem key anchor deadline resumed h = ground arith

-- Either a window closed before `at`, or none did.
pub closing_lem :
    (key : ClockKey) (current : Option Anchor) (deadline : PolicyDeadline) (at : ℕ)
    {closed : List CoverageWindow}
    → closing key current deadline at ≡ ok closed
    → ((window : CoverageWindow) × (closed ≡ window ∷ [])
        × (deadline.due_at < at)
        × IsWindow key deadline (some at) window)
      ⊎ ((closed ≡ []) × (at ≤ deadline.due_at))
unfolding closing
closing_lem key current deadline at {closed} h = elim (Bool-cases (ltb deadline.due_at at)) [
  | inl e ↦
      let (w, made, k) =
        >>=-eq-ok (make_window key current deadline (some at)) (λ w. ok (w ∷ [])) (rw e at h) in
      inl (w, ground arith, ground arith, make_window_lem key current deadline (some at) made)
  | inr e ↦ inr (ground arith, ground arith)
]

pub lapsing_lem :
    (key : ClockKey) (current : Option Anchor) (deadline : PolicyDeadline) (lapsed : Bool)
    {last : List CoverageWindow}
    → lapsing key current deadline lapsed ≡ ok last
    → ((window : CoverageWindow) × (last ≡ window ∷ [])
        × (lapsed ≡ true)
        × IsWindow key deadline none window)
      ⊎ ((last ≡ []) × (lapsed ≡ false))
unfolding lapsing
lapsing_lem key current deadline true {last} h =
    let (w, made, k) = >>=-eq-ok (make_window key current deadline none) (λ w. ok (w ∷ [])) h in
    inl (w, ground arith, refl, make_window_lem key current deadline none made)
lapsing_lem key current deadline false h = inr (ground arith, refl)

module _ (deadline_at : ℕ → Result PolicyDeadline) where
  pub record WalkStep (key : ClockKey) (current : Option Anchor) (deadline : PolicyDeadline)
      (following : Anchor) (rest : List Anchor) (walked : Walked) : Type 0 where
    pub closed : List CoverageWindow
    pub next : PolicyDeadline
    pub tail : Walked
    pub closes : closing key current deadline following.at ≡ ok closed
    pub falls_due : deadline_at following.at ≡ ok next
    pub walks : walk deadline_at key (some following) next rest ≡ ok tail
    pub windows_eq : walked.windows ≡ closed ++ tail.windows
    pub anchor_eq : walked.anchor ≡ tail.anchor
    pub deadline_eq : walked.deadline ≡ tail.deadline

  pub walk_step :
      (key : ClockKey) (current : Option Anchor) (deadline : PolicyDeadline) (following : Anchor)
      (rest : List Anchor) {walked : Walked}
      → walk deadline_at key current deadline (following ∷ rest) ≡ ok walked
      → WalkStep key current deadline following rest walked
  unfolding walk
  walk_step key current deadline following rest {walked} h =
      let (closed, c, h1) = >>=-eq-ok (closing key current deadline following.at) _ h in
      let (next, d, h2) = >>=-eq-ok (deadline_at following.at) _ h1 in
      let (tail, w, h3) = >>=-eq-ok (walk deadline_at key (some following) next rest) _ h2 in
      record {
        closed = closed;
        next = next;
        tail = tail;
        closes = c;
        falls_due = d;
        walks = w;
        windows_eq = ground arith;
        anchor_eq = ground arith;
        deadline_eq = ground arith;
      }

  pub record FinishSteps (key : ClockKey) (as_of : ℕ) (decommissioned_at : Option ℕ)
      (examined : Bool) (walked : Walked) (ran : Ran) : Type 0 where
    pub last : List CoverageWindow
    pub lapses :
        lapsing key walked.anchor walked.deadline
          (is_lapsed as_of walked.deadline.due_at decommissioned_at)
        ≡ ok last
    pub windows_eq : ran.windows ≡ walked.windows ++ last
    pub status_eq :
        ran.clock.status
        ≡ status_of examined walked.anchor
            (is_lapsed as_of walked.deadline.due_at decommissioned_at)
    pub deadline_eq : ran.clock.deadline ≡ some walked.deadline

  check_clock-eq-ok :
      (clock : CoverageClock) {checked : CoverageClock}
      → check_clock clock ≡ ok checked
      → checked ≡ clock
  unfolding check_clock
  check_clock-eq-ok clock h = ground arith

  finish_steps :
      (key : ClockKey) (force : RuleForce) (as_of : ℕ) (decommissioned_at : Option ℕ)
      (examined : Bool) (walked : Walked) {ran : Ran}
      → finish deadline_at key force as_of decommissioned_at examined walked ≡ ok ran
      → FinishSteps key as_of decommissioned_at examined walked ran
  unfolding finish
  finish_steps key force as_of decommissioned_at examined walked {ran} h =
      let lapsed = is_lapsed as_of walked.deadline.due_at decommissioned_at in
      let (last, l, h1) = >>=-eq-ok (lapsing key walked.anchor walked.deadline lapsed) _ h in
      let (clock, c, h2) = >>=-eq-ok (check_clock _) _ h1 in
      let same = check_clock-eq-ok _ c in
      record {
        last = last;
        lapses = l;
        windows_eq = cc;
        status_eq = cc (ap (λ (k : CoverageClock). k.status) same);
        deadline_eq = cc (ap (λ (k : CoverageClock). k.deadline) same);
      }

  pub record RunSteps (key : ClockKey) (as_of : ℕ) (expected_since : ℕ)
      (decommissioned_at : Option ℕ) (anchors : List Anchor) (examined : Bool) (ran : Ran)
      : Type 0 where
    pub current : Option Anchor
    pub deadline : PolicyDeadline
    pub walked : Walked
    pub reaches :
        reaching deadline_at (last_of (until expected_since anchors)) expected_since ≡ ok current
    pub falls_due : deadline_at (start_of current expected_since) ≡ ok deadline
    pub walks :
        walk deadline_at key current deadline (drop (length (until expected_since anchors)) anchors)
        ≡ ok walked
    pub finishes : FinishSteps key as_of decommissioned_at examined walked ran

  module _ (key : ClockKey) (force : RuleForce) (as_of expected_since : ℕ)
      (decommissioned_at : Option ℕ) (anchors : List Anchor) (examined : Bool) (ran : Ran) where
    abbrev after : Walked → Result Ran
    after = finish deadline_at key force as_of decommissioned_at examined

    abbrev later : List Anchor
    later = drop (length (until expected_since anchors)) anchors

    from_deadline :
        (current : Option Anchor) (deadline : PolicyDeadline)
        → reaching deadline_at (last_of (until expected_since anchors)) expected_since ≡ ok current
        → deadline_at (start_of current expected_since) ≡ ok deadline
        → (walk deadline_at key current deadline later >>= after) ≡ ok ran
        → RunSteps key as_of expected_since decommissioned_at anchors examined ran
    from_deadline current deadline r d h =
        let (walked, w, h') = >>=-eq-ok (walk deadline_at key current deadline later) after h in
        record {
          current = current;
          deadline = deadline;
          walked = walked;
          reaches = r;
          falls_due = d;
          walks = w;
          finishes = finish_steps key force as_of decommissioned_at examined walked h';
        }

    from_current :
        (current : Option Anchor)
        → reaching deadline_at (last_of (until expected_since anchors)) expected_since ≡ ok current
        → (deadline_at (start_of current expected_since) >>= λ deadline.
            walk deadline_at key current deadline later >>= after)
          ≡ ok ran
        → RunSteps key as_of expected_since decommissioned_at anchors examined ran
    from_current current r h =
        let (deadline, d, h') = >>=-eq-ok (deadline_at (start_of current expected_since)) _ h in
        from_deadline current deadline r d h'

    pub run_steps :
        expected_since ≤ as_of
        → run_from deadline_at key force as_of expected_since decommissioned_at anchors examined
          ≡ ok ran
        → RunSteps key as_of expected_since decommissioned_at anchors examined ran
    unfolding run_from
    run_steps e h =
        let late : ltb as_of expected_since ≡ false = ground arith in
        let (current, r, h') =
          >>=-eq-ok (reaching deadline_at (last_of (until expected_since anchors)) expected_since)
            (λ current. deadline_at (start_of current expected_since) >>= λ deadline.
              walk deadline_at key current deadline later >>= after)
            (rw late at h) in
        from_current current r h'
