-- ===== src/Coverage/Run.antt =====
-- reports/coverage.py: `_run`, the walk of one clock's verifications to as-of.
pub mod Split
pub mod Steps
pub mod Gaps
pub mod Windows
pub mod Refusals
pub mod Status
use comply_roll.Common.{
  ℕ, zero, suc, Bool, true, false, not, ◌&&◌, ◌||◌, String, Option, none, some, List, [], ◌∷◌, ◌++◌,
  ltb, leb, length, if◌then◌else◌,
}
use comply_roll.Coverage.Clock.{ClockKey}
use comply_roll.Coverage.Evidence.{CoverageEvidence, Anchor}
use comply_roll.Coverage.Window.{
  AnchorKind, CoverageStatus, CoverageClock, CoverageWindow, check_clock, check_window,
}
use comply_roll.Errors.{Result, ok, err, ◌>>=◌}
use comply_roll.Models.{ResourceRef}
use comply_roll.Policy.{PolicyDeadline, RuleForce, SelectedPolicy}
use comply_roll.Policy.Deadlines.{coverage_deadline}

-- `_anchor_kind`
abbrev pub anchor_kind : Option Anchor → AnchorKind
anchor_kind none = AnchorKind.declared
anchor_kind (some anchor) = AnchorKind.verification

-- `None if anchor is None else anchor.evidence`, and the stand-in
abbrev pub anchor_evidence : Option Anchor → Option CoverageEvidence
anchor_evidence none = none
anchor_evidence (some anchor) = some anchor.evidence

abbrev pub anchor_stand_in : Option Anchor → Option ResourceRef
anchor_stand_in none = none
anchor_stand_in (some anchor) = anchor.stand_in

-- The arguments of `_window`, as the window that it constructs.
abbrev pub window_of : ClockKey → Option Anchor → PolicyDeadline → Option ℕ → CoverageWindow
window_of key anchor deadline resumed_at = record {
  key = key;
  anchor = anchor_kind anchor;
  deadline = deadline;
  resumed_at = resumed_at;
  evidence = anchor_evidence anchor;
  stand_in = anchor_stand_in anchor;
}

-- `_window`
unfoldable pub make_window :
    ClockKey → Option Anchor → PolicyDeadline → Option ℕ → Result CoverageWindow
make_window key anchor deadline resumed_at = check_window (window_of key anchor deadline resumed_at)

-- `[anchor for anchor in anchors if anchor.at <= expected_since]`
unfoldable pub until : ℕ → List Anchor → List Anchor
until expected_since [] = []
until expected_since (anchor ∷ anchors) =
    let rest = until expected_since anchors in
    if leb anchor.at expected_since then anchor ∷ rest else rest

-- `anchors[n:]`
unfoldable pub drop : ℕ → List Anchor → List Anchor
drop zero anchors = anchors
drop (suc n) [] = []
drop (suc n) (anchor ∷ anchors) = drop n anchors

-- `earlier[-1]`
unfoldable pub last_of : List Anchor → Option Anchor
last_of [] = none
last_of (anchor ∷ []) = some anchor
last_of (anchor ∷ next ∷ rest) = last_of (next ∷ rest)

-- `expected_since if current is None else current.at`
abbrev pub start_of : Option Anchor → ℕ → ℕ
start_of none expected_since = expected_since
start_of (some anchor) expected_since = anchor.at

-- A window that closed before `at`, the next verification.
unfoldable pub closing :
    ClockKey → Option Anchor → PolicyDeadline → ℕ → Result (List CoverageWindow)
closing key current deadline at =
    if ltb deadline.due_at at
    then (do window ← make_window key current deadline (some at); ok (window ∷ []))
    else ok []

-- What the walk leaves: the anchor and its deadline, and the windows that closed on the way.
pub record Walked : Type 0 where
  pub anchor : Option Anchor
  pub deadline : PolicyDeadline
  pub windows : List CoverageWindow

-- `as_of > deadline.due_at and (decommissioned_at is None or deadline.due_at <= decommissioned_at)`
unfoldable pub is_lapsed : ℕ → ℕ → Option ℕ → Bool
is_lapsed as_of due none = ltb due as_of
is_lapsed as_of due (some stopped) = ltb due as_of && leb due stopped

unfoldable pub status_of : Bool → Option Anchor → Bool → CoverageStatus
status_of false anchor lapsed = CoverageStatus.missing
status_of true none lapsed = CoverageStatus.undetermined
status_of true (some anchor) true = CoverageStatus.stale
status_of true (some anchor) false = CoverageStatus.current

-- The last window, open at as-of, if its deadline has passed.
unfoldable pub lapsing :
    ClockKey → Option Anchor → PolicyDeadline → Bool → Result (List CoverageWindow)
lapsing key current deadline true = do
  window ← make_window key current deadline none
  ok (window ∷ [])
lapsing key current deadline false = ok []

abbrev pub unanchored_clock : ClockKey → RuleForce → CoverageClock
unanchored_clock key force = record {
  key = key;
  force = force;
  status = CoverageStatus.unanchored;
  anchor = none;
  deadline = none;
  evidence = none;
  stand_in = none;
}

-- The clock at as-of, as `_run` constructs it.
abbrev pub clock_of : ClockKey → RuleForce → CoverageStatus → Walked → CoverageClock
clock_of key force status walked = record {
  key = key;
  force = force;
  status = status;
  anchor = some (anchor_kind walked.anchor);
  deadline = some walked.deadline;
  evidence = anchor_evidence walked.anchor;
  stand_in = anchor_stand_in walked.anchor;
}

pub record Ran : Type 0 where
  pub clock : CoverageClock
  pub windows : List CoverageWindow

module _ (deadline_at : ℕ → Result PolicyDeadline) where
  -- The last verification at or before expectedSince, if its window reaches that instant.
  unfoldable pub reaching : Option Anchor → ℕ → Result (Option Anchor)
  reaching none expected_since = ok none
  reaching (some anchor) expected_since = do
    deadline ← deadline_at anchor.at
    ok (if leb expected_since deadline.due_at then some anchor else none)

  -- The `for` over the verifications after expectedSince.
  unfoldable pub walk : ClockKey → Option Anchor → PolicyDeadline → List Anchor → Result Walked
  walk key current deadline [] = ok (record { anchor = current; deadline = deadline; windows = [] })
  walk key current deadline (following ∷ rest) = do
    closed ← closing key current deadline following.at
    next ← deadline_at following.at
    walked ← walk key (some following) next rest
    ok (record walked { windows = closed ++ walked.windows })

  -- What `_run` makes of the end of the walk.
  unfoldable pub finish : ClockKey → RuleForce → ℕ → Option ℕ → Bool → Walked → Result Ran
  finish key force as_of decommissioned_at examined walked = do
    let lapsed = is_lapsed as_of walked.deadline.due_at decommissioned_at
    last ← lapsing key walked.anchor walked.deadline lapsed
    clock ← check_clock (clock_of key force (status_of examined walked.anchor lapsed) walked)
    ok (record { clock = clock; windows = walked.windows ++ last })

  unfoldable pub run_from :
      ClockKey → RuleForce → ℕ → ℕ → Option ℕ → List Anchor → Bool → Result Ran
  run_from key force as_of expected_since decommissioned_at anchors examined =
      if ltb as_of expected_since
      then (do
        clock ← check_clock (unanchored_clock key force)
        ok (record { clock = clock; windows = [] }))
      else (do
        let earlier = until expected_since anchors
        current ← reaching (last_of earlier) expected_since
        deadline ← deadline_at (start_of current expected_since)
        walked ← walk key current deadline (drop (length earlier) anchors)
        finish key force as_of decommissioned_at examined walked)

-- `_run`
unfoldable pub run :
    ClockKey → RuleForce → SelectedPolicy → ℕ → ℕ → Option ℕ → List Anchor → Bool → Result Ran
unfolding run_from
run key force policy as_of expected_since decommissioned_at anchors examined =
    run_from (coverage_deadline policy key.rule_id) key force as_of expected_since decommissioned_at
      anchors examined
