-- ===== src/Coverage/Run/Refusals.antt =====
-- reports/coverage.py, `_run`: the checks of the records that a run builds.
use comply_roll.Common.{
  ℕ, Bool, ◌≡◌, refl, true, false, Option, none, some, List, [], ◌∷◌, ◌++◌, inl, inr, leb, ltb,
  length, All, Bool-cases, arith, eq_iff, is_some,
}
use comply_roll.Coverage.Clock.{ClockKey}
use comply_roll.Coverage.Evidence.{Anchor}
use comply_roll.Coverage.Window.{
  CoverageWindow, check_window, check_clock, check_anchor, same_force, is_unanchored,
}
use comply_roll.Coverage.Run.{
  Walked, Ran, clock_of, window_of, walk, closing, lapsing, make_window, finish, run_from, reaching,
  start_of, is_lapsed, until, drop, last_of, anchor_kind, anchor_evidence, anchor_stand_in,
  status_of, unanchored_clock,
}
use comply_roll.Coverage.Run.Split.{InTimeOrder, until-IsCut, last_of_All, All-prefix, All-suffix}
use comply_roll.Errors.{Result, ok}
use comply_roll.Policy.{PolicyDeadline, RuleForce}

-- A verification of a sample group's clock names a stand-in, and no other does.
abbrev pub StandsIn : ClockKey → Option Anchor → Type 0
StandsIn key none = Unit
StandsIn key (some a) = is_some a.stand_in ≡ is_some key.sample_group

-- The deadline is of the clock's own rule and force.
abbrev pub IsOwn : ClockKey → RuleForce → PolicyDeadline → Type 0
IsOwn key force d = (d.rule_id ≡ key.rule_id) × (d.force ≡ force)

same_force_refl : (f : RuleForce) → same_force f f ≡ true
same_force_refl f = ground arith

check_anchor_returns :
    (key : ClockKey) (force : RuleForce) (current : Option Anchor) (deadline : PolicyDeadline)
    → StandsIn key current
    → IsOwn key force deadline
    → check_anchor key force
        (some (anchor_kind current))
        (some deadline)
        (anchor_evidence current)
        (anchor_stand_in current)
      ≡ ok tt
unfolding check_anchor
check_anchor_returns key force none deadline s o =
    ground (arith, eq_iff deadline.rule_id key.rule_id, same_force_refl force)
check_anchor_returns key force (some a) deadline s o =
    ground (arith, eq_iff deadline.rule_id key.rule_id, same_force_refl force)

abbrev Late : PolicyDeadline → Option ℕ → Type 0
Late deadline none = Unit
Late deadline (some r) = ltb deadline.due_at r ≡ true

make_window_returns :
    (key : ClockKey) (current : Option Anchor) (deadline : PolicyDeadline) (resumed : Option ℕ)
    → StandsIn key current
    → deadline.rule_id ≡ key.rule_id
    → Late deadline resumed
    → make_window key current deadline resumed ≡ ok (window_of key current deadline resumed)
unfolding make_window check_window
make_window_returns key current deadline none s o late =
    rw (check_anchor_returns key deadline.force current deadline s (o, refl))
make_window_returns key current deadline (some r) s o late =
    rw (check_anchor_returns key deadline.force current deadline s (o, refl)) (ground arith)

closing_returns :
    (key : ClockKey) (current : Option Anchor) (deadline : PolicyDeadline) (at : ℕ)
    → StandsIn key current
    → deadline.rule_id ≡ key.rule_id
    → (closed : List CoverageWindow) × (closing key current deadline at ≡ ok closed)
unfolding closing
closing_returns key current deadline at s o = elim (Bool-cases (ltb deadline.due_at at)) [
  | inl e ↦ (
    window_of key current deadline (some at) ∷ [],
    rw (e, make_window_returns key current deadline (some at) s o e),
  )
  | inr e ↦ ([], rw e)
]

lapsing_returns :
    (key : ClockKey) (current : Option Anchor) (deadline : PolicyDeadline) (lapsed : Bool)
    → StandsIn key current
    → deadline.rule_id ≡ key.rule_id
    → (last : List CoverageWindow) × (lapsing key current deadline lapsed ≡ ok last)
unfolding lapsing
lapsing_returns key current deadline true s o = (
  window_of key current deadline none ∷ [],
  rw (make_window_returns key current deadline none s o tt),
)
lapsing_returns key current deadline false s o = ([], refl)

status-anchored :
    (examined : Bool) (anchor : Option Anchor) (lapsed : Bool)
    → is_unanchored (status_of examined anchor lapsed) ≡ false
unfolding status_of
status-anchored examined anchor lapsed = ground arith

-- The deadline of a clock that runs from `at` is computed.
abbrev pub Computes : (ℕ → Result PolicyDeadline) → ℕ → Type 0
Computes deadline_at at = (d : PolicyDeadline) × (deadline_at at ≡ ok d)

module _ (deadline_at : ℕ → Result PolicyDeadline) (key : ClockKey) (force : RuleForce) where
  abbrev Reachable : Option Anchor → Type 0
  Reachable none = Unit
  Reachable (some a) = Computes deadline_at a.at

  last_stands :
      (anchors : List Anchor) (last : Option Anchor)
      → last_of anchors ≡ last
      → All (λ a. StandsIn key (some a)) anchors
      → StandsIn key last
  last_stands anchors none e h = tt
  last_stands anchors (some a) e h = last_of_All (λ a. StandsIn key (some a)) anchors a e h

  last-Computes :
      (anchors : List Anchor) (last : Option Anchor)
      → last_of anchors ≡ last
      → All (λ a. Computes deadline_at a.at) anchors
      → Reachable last
  last-Computes anchors none e h = tt
  last-Computes anchors (some a) e h = last_of_All (λ a. Computes deadline_at a.at) anchors a e h

  module _ (own : (at : ℕ) (d : PolicyDeadline) → deadline_at at ≡ ok d → IsOwn key force d) where
    walk_returns :
        (current : Option Anchor) (deadline : PolicyDeadline) (anchors : List Anchor)
        → StandsIn key current
        → IsOwn key force deadline
        → All (λ a. StandsIn key (some a)) anchors
        → All (λ a. Computes deadline_at a.at) anchors
        → (walked : Walked) × (walk deadline_at key current deadline anchors ≡ ok walked)
          × StandsIn key walked.anchor
          × IsOwn key force walked.deadline
    unfolding walk
    walk_returns current deadline [] s o ss c =
        (record { anchor = current; deadline = deadline; windows = [] }, refl, s, o)
    walk_returns current deadline (f ∷ rest) s o ss c =
        let (closed, e) = closing_returns key current deadline f.at s o.0 in
        let (next, d) = c.0 in
        let (tail, w, ts, to) = walk_returns (some f) next rest ss.0 (own f.at next d) ss.1 c.1 in
        (record tail { windows = closed ++ tail.windows }, rw (e, d, w), ts, to)

    finish_returns :
        (as_of : ℕ) (decommissioned_at : Option ℕ) (examined : Bool) (walked : Walked)
        → StandsIn key walked.anchor
        → IsOwn key force walked.deadline
        → (ran : Ran) × (finish deadline_at key force as_of decommissioned_at examined walked
            ≡ ok ran)
    unfolding finish check_clock
    finish_returns as_of decommissioned_at examined walked s o =
        let lapsed = is_lapsed as_of walked.deadline.due_at decommissioned_at in
        let (last, e) = lapsing_returns key walked.anchor walked.deadline lapsed s o.0 in
        (
          record {
            clock = clock_of key force (status_of examined walked.anchor lapsed) walked;
            windows = walked.windows ++ last;
          },
          rw (
            e,
            status-anchored examined walked.anchor lapsed,
            check_anchor_returns key force walked.anchor walked.deadline s o,
          ),
        )

    reaching_returns :
        (last : Option Anchor) (expected_since : ℕ)
        → StandsIn key last
        → Reachable last
        → (current : Option Anchor) × (reaching deadline_at last expected_since ≡ ok current)
          × StandsIn key current
          × (Computes deadline_at expected_since
              → Computes deadline_at (start_of current expected_since))
    unfolding reaching
    reaching_returns none expected_since s c = (none, refl, tt, λ d. d)
    reaching_returns (some a) expected_since s (d, e) =
        elim (Bool-cases (leb expected_since d.due_at)) [
          | inl h ↦ (some a, rw (e, h), s, λ _. (d, e))
          | inr h ↦ (none, rw (e, h), tt, λ c. c)
        ]

    run_late :
        (as_of expected_since : ℕ) (decommissioned_at : Option ℕ) (anchors : List Anchor)
        (examined : Bool)
        → InTimeOrder anchors
        → All (λ a. StandsIn key (some a)) anchors
        → All (λ a. Computes deadline_at a.at) anchors
        → Computes deadline_at expected_since
        → ltb as_of expected_since ≡ false
        → (ran : Ran) × (run_from deadline_at key force as_of expected_since decommissioned_at
              anchors examined
            ≡ ok ran)
    unfolding run_from
    run_late as_of expected_since decommissioned_at anchors examined o ss c d late =
        let earlier = until expected_since anchors in
        let later = drop (length earlier) anchors in
        let cut = until-IsCut expected_since anchors o in
        let last = last_of earlier in
        let (current, r, s, onward) =
          reaching_returns last expected_since
            (last_stands earlier last refl (All-prefix _ earlier later (rw cut.whole ss)))
            (last-Computes earlier last refl (All-prefix _ earlier later (rw cut.whole c))) in
        let (deadline, f) = onward d in
        let (walked, w, ws, wo) =
          walk_returns current deadline later s (own _ deadline f)
            (All-suffix _ earlier later (rw cut.whole ss))
            (All-suffix _ earlier later (rw cut.whole c)) in
        let (ran, g) = finish_returns as_of decommissioned_at examined walked ws wo in
        (ran, rw (late, r, f, w, g))

    pub run_returns :
        (as_of expected_since : ℕ) (decommissioned_at : Option ℕ) (anchors : List Anchor)
        (examined : Bool)
        → InTimeOrder anchors
        → All (λ a. StandsIn key (some a)) anchors
        → All (λ a. Computes deadline_at a.at) anchors
        → Computes deadline_at expected_since
        → (ran : Ran) × (run_from deadline_at key force as_of expected_since decommissioned_at
              anchors examined
            ≡ ok ran)
    run_returns as_of expected_since decommissioned_at anchors examined o ss c d =
        elim (Bool-cases (ltb as_of expected_since)) [
          | inl early ↦ (
            record { clock = unanchored_clock key force; windows = [] },
            unfold run_from check_clock check_anchor in rw early (ground arith),
          )
          | inr late ↦
              run_late as_of expected_since decommissioned_at anchors examined o ss c d late
        ]
