-- ===== src/Coverage/Evidence/Anchoring.antt =====
-- reports/coverage.py: the anchors that `_anchors` reads from verifications.
use mathlib.Core.List.{map}
use comply_roll.Common.{
  ℕ, Bool, String, false, Option-cases, inl, inr, ◌≡◌, refl, true, Option, none, some, List, [],
  ◌∷◌, ap, ◌∙◌, All, nat_eqb, arith, if◌then◌else◌,
}
use comply_roll.Common.Order.{nat_order, ◌≤?◌, ◌<?◌, pick_assoc}
use comply_roll.Common.Order.Text.{string_order}
use comply_roll.Common.Order.Tuple.{pair_order, bool_order}
use comply_roll.Common.Sort.{sorted, insert_by, Ascending}
use comply_roll.Common.Sort.Laws.{sorted-Ascending}
use comply_roll.Coverage.Evidence.{
  CoverageEvidence, Anchor, Timed, anchor_of, anchors_of, chosen, hold, is_before, kind_value,
  evidence_sort_key,
}

abbrev time_of : Timed → ℕ
time_of t = t.0

Ascending-anchors :
    (held : List Timed)
    → Ascending time_of held
    → Ascending (λ (a : Anchor). a.at) (map anchor_of held)
Ascending-anchors [] h = tt
Ascending-anchors (t ∷ rest) h = (head t rest h.0, Ascending-anchors rest h.1)
  where
    head :
        (t : Timed) (rest : List Timed)
        → All (λ (u : Timed). (t.0 ≤? u.0) ≡ true) rest
        → All (λ (a : Anchor). ((anchor_of t).at ≤? a.at) ≡ true) (map anchor_of rest)
    head t [] k = tt
    head t (u ∷ us) k = (k.0, head t us k.1)

anchors_of-InTimeOrder :
    (verifying : List Timed) → Ascending (λ (a : Anchor). a.at) (anchors_of verifying)
unfolding anchors_of
anchors_of-InTimeOrder verifying =
    Ascending-anchors (sorted time_of (chosen verifying []))
      (sorted-Ascending time_of (chosen verifying []))

-- Evidence in order: the untimed before the timed, then by instant, by kind, by the type and the
-- identifier of the resource, and by reference.
abbrev pub place_of : CoverageEvidence → Bool × (ℕ × (String × (String × (String × String))))
place_of item = elim item.at [
  | none ↦ (
    false,
    (
      0,
      (
        kind_value item.kind,
        (item.resource.resource_type, (item.resource.resource_id, item.reference)),
      ),
    ),
  )
  | some at ↦ (
    true,
    (
      at,
      (
        kind_value item.kind,
        (item.resource.resource_type, (item.resource.resource_id, item.reference)),
      ),
    ),
  )
]

-- The lesser of two pieces of evidence, the first where neither is less.
abbrev pub lesser : CoverageEvidence → CoverageEvidence → CoverageEvidence
lesser held item = if place_of item <? place_of held then item else held

place_of-evidence_sort_key : (item : CoverageEvidence) → evidence_sort_key item ≡ place_of item
unfolding evidence_sort_key
place_of-evidence_sort_key item = elim (Option-cases item.at) [ inl e ↦ rw e | inr (at, e) ↦ rw e ]

is_before-place_of :
    (item held : CoverageEvidence) → is_before item held ≡ (place_of item <? place_of held)
unfolding is_before
is_before-place_of item held = rw (place_of-evidence_sort_key item, place_of-evidence_sort_key held)

abbrev pub lesser_of : Option CoverageEvidence → Option CoverageEvidence → Option CoverageEvidence
lesser_of none item = item
lesser_of (some held) none = some held
lesser_of (some held) (some item) = some (lesser held item)

-- The least evidence that verifies at an instant.
abbrev pub least_at : ℕ → List Timed → Option CoverageEvidence
least_at at [] = none
least_at at ((t, item) ∷ rest) =
    lesser_of (if nat_eqb t at then some item else none) (least_at at rest)

-- The evidence of the first anchor of an instant.
abbrev pub evidence_at : ℕ → List Anchor → Option CoverageEvidence
evidence_at at [] = none
evidence_at at (a ∷ rest) = if nat_eqb a.at at then some a.evidence else evidence_at at rest

abbrev held_at : ℕ → List Timed → Option CoverageEvidence
held_at at [] = none
held_at at ((t, item) ∷ rest) = if nat_eqb t at then some item else held_at at rest

lesser_assoc : (a b c : CoverageEvidence) → lesser (lesser a b) c ≡ lesser a (lesser b c)
lesser_assoc a b c = pick_assoc place_of a b c

lesser_of_assoc :
    (a b c : Option CoverageEvidence) → lesser_of (lesser_of a b) c ≡ lesser_of a (lesser_of b c)
lesser_of_assoc none b c = refl
lesser_of_assoc (some a) none c = refl
lesser_of_assoc (some a) (some b) none = refl
lesser_of_assoc (some a) (some b) (some c) = ap some (lesser_assoc a b c)

held_at-hold :
    (at t : ℕ) (item : CoverageEvidence) (held : List Timed)
    → held_at at (hold t item held)
      ≡ lesser_of (held_at at held) (if nat_eqb t at then some item else none)
unfolding hold
held_at-hold at t item [] = refl
held_at-hold at t item ((u, h) ∷ rest) =
    rw (is_before-place_of item h) (ground (arith, held_at-hold at t item rest))

held_at-chosen :
    (at : ℕ) (verifying held : List Timed)
    → held_at at (chosen verifying held) ≡ lesser_of (held_at at held) (least_at at verifying)
unfolding chosen
held_at-chosen at [] held = ground arith
held_at-chosen at ((t, item) ∷ rest) held =
    held_at-chosen at rest (hold t item held)
    ∙ ap (λ o. lesser_of o (least_at at rest)) (held_at-hold at t item held)
    ∙ lesser_of_assoc (held_at at held) (if nat_eqb t at then some item else none)
        (least_at at rest)

held_at-insert_by :
    (at : ℕ) (t : Timed) (held : List Timed)
    → held_at at (insert_by time_of t held) ≡ held_at at (t ∷ held)
unfolding insert_by
held_at-insert_by at (t, item) [] = refl
held_at-insert_by at (t, item) ((u, h) ∷ rest) = ground (arith, held_at-insert_by at (t, item) rest)

held_at-sorted : (at : ℕ) (held : List Timed) → held_at at (sorted time_of held) ≡ held_at at held
unfolding sorted
held_at-sorted at [] = refl
held_at-sorted at ((t, item) ∷ rest) =
    held_at-insert_by at (t, item) (sorted time_of rest) ∙ ground (arith, held_at-sorted at rest)

evidence_at-map :
    (at : ℕ) (held : List Timed) → evidence_at at (map anchor_of held) ≡ held_at at held
evidence_at-map at [] = refl
evidence_at-map at ((t, item) ∷ rest) = ground (arith, evidence_at-map at rest)

-- The anchors of a resource are in time order, and the anchor of any instant names the least
-- evidence that verifies at that instant, in the order of `place_of`, and is there exactly if there is such evidence.
pub anchors_of_lem :
    (verifying : List Timed) (at : ℕ)
    → Ascending (λ (a : Anchor). a.at) (anchors_of verifying)
      × (evidence_at at (anchors_of verifying) ≡ least_at at verifying)
unfolding anchors_of
anchors_of_lem verifying at = (
  unfold anchors_of in anchors_of-InTimeOrder verifying,
  evidence_at-map at (sorted time_of (chosen verifying []))
      ∙ held_at-sorted at (chosen verifying [])
      ∙ held_at-chosen at verifying [],
)
