-- ===== src/Coverage/Evidence.antt =====
-- reports/coverage.py: `CoverageEvidence`, the anchors read from it, and how it is filed.
pub mod Anchoring
use mathlib.Core.List.{map}
use comply_roll.Common.{
  ℕ, Bool, true, false, not, String, Option, none, some, List, [], ◌∷◌, nat_eqb, bool_eqb, is_none,
  is_some, if◌then◌else◌,
}
use comply_roll.Common.Order.{◌<?◌, nat_order}
use comply_roll.Common.Order.Text.{string_order}
use comply_roll.Common.Order.Tuple.{pair_order, bool_order}
use comply_roll.Common.Sort.{sorted}
use comply_roll.Errors.{Result, ok, err, value_error, refuse_if, ◌>>=◌, ◌>>◌}
use comply_roll.Models.{ResourceRef, ObservationDisposition}

pub data EvidenceKind : Type 0 where
  observation attestation : EvidenceKind

abbrev pub is_attestation : EvidenceKind → Bool
is_attestation EvidenceKind.observation = false
is_attestation EvidenceKind.attestation = true

abbrev pub kind_value : EvidenceKind → String
kind_value EvidenceKind.observation = "observation"
kind_value EvidenceKind.attestation = "attestation"

pub record CoverageEvidence : Type 0 where
  pub kind : EvidenceKind
  pub resource : ResourceRef
  pub at : Option ℕ
  pub reference : String
  pub disposition : Option ObservationDisposition

-- `CoverageEvidence.__post_init__`
unfoldable pub check_evidence : CoverageEvidence → Result CoverageEvidence
check_evidence item = do
  refuse_if (not (bool_eqb (is_none item.disposition) (is_attestation item.kind)))
      (value_error "disposition")
  refuse_if (if is_none item.at then is_attestation item.kind else false) (value_error "timed")
  ok item

-- `self.at or _EARLIEST`
at_or_earliest : Option ℕ → ℕ
at_or_earliest none = 0
at_or_earliest (some at) = at

abbrev pub EvidenceKey : Type 0
EvidenceKey = Bool × (ℕ × (String × (String × (String × String))))

unfoldable pub evidence_sort_key : CoverageEvidence → EvidenceKey
unfolding at_or_earliest
evidence_sort_key item = (
  is_some item.at,
  (
    at_or_earliest item.at,
    (
      kind_value item.kind,
      (item.resource.resource_type, (item.resource.resource_id, item.reference)),
    ),
  ),
)

-- `_ordered`
unfoldable pub ordered : List CoverageEvidence → List CoverageEvidence
ordered items = sorted evidence_sort_key items

-- `_Anchor`
pub record Anchor : Type 0 where
  pub at : ℕ
  pub evidence : CoverageEvidence
  pub stand_in : Option ResourceRef

abbrev pub Timed : Type 0
Timed = ℕ × CoverageEvidence

-- `item.sort_key < held.sort_key`
unfoldable pub is_before : CoverageEvidence → CoverageEvidence → Bool
is_before item held = evidence_sort_key item <? evidence_sort_key held

-- One round of `_anchors`: the least evidence of an instant is held for it.
unfoldable pub hold : ℕ → CoverageEvidence → List Timed → List Timed
hold at item [] = (at, item) ∷ []
hold at item ((t, held) ∷ rest) =
    if nat_eqb t at
    then (t, if is_before item held then item else held) ∷ rest
    else (t, held) ∷ hold at item rest

unfoldable pub chosen : List Timed → List Timed → List Timed
chosen [] held = held
chosen ((at, item) ∷ verifying) held = chosen verifying (hold at item held)

abbrev pub anchor_of : Timed → Anchor
anchor_of (at, item) = record { at = at; evidence = item; stand_in = none }

-- `_anchors`
unfoldable pub anchors_of : List Timed → List Anchor
anchors_of verifying = map anchor_of (sorted (λ (t : Timed). t.0) (chosen verifying []))
