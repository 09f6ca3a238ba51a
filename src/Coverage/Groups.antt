-- ===== src/Coverage/Groups.antt =====
-- reports/coverage.py: sample groups, their anchors and when their clock stops.
use Prim.Native.Nat.{min, max}
use mathlib.Core.List.{map}
use comply_roll.Common.{
  ℕ, Bool, true, false, String, Option, none, some, List, [], ◌∷◌, ◌++◌, nat_eqb, ◌==◌,
  if◌then◌else◌,
}
use comply_roll.Common.Order.{nat_order}
use comply_roll.Common.Sort.{sorted}
use comply_roll.Coverage.Collect.{Filed, found_at, same_ref}
use comply_roll.Coverage.Evidence.{Anchor, Timed, anchors_of}
use comply_roll.Errors.{Result, ok, err, key_error, ◌>>=◌}
use comply_roll.Inventory.{InformationResource, ref_of}
use comply_roll.Models.{ResourceRef}

abbrev pub Anchored : Type 0
Anchored = List (ResourceRef × List Anchor)

-- `{ref: _anchors(found.verifying) for ref, found in collected.items()}`
abbrev pub anchor_all : Filed → Anchored
anchor_all collected = map (λ p. (p.0, anchors_of (p.1).verifying)) collected

-- `anchors[ref]`
unfoldable pub anchors_at : ResourceRef → Anchored → Result (List Anchor)
anchors_at ref [] = err (key_error "anchors")
anchors_at ref ((r, held) ∷ rest) = if same_ref r ref then ok held else anchors_at ref rest

abbrev pub Groups : Type 0
Groups = List (String × List InformationResource)

-- `groups[name].append(entry)`
unfoldable pub join_group : String → InformationResource → Groups → Groups
join_group name entry [] = (name, entry ∷ []) ∷ []
join_group name entry ((n, members) ∷ rest) =
    if n == name
    then (n, members ++ entry ∷ []) ∷ rest
    else (n, members) ∷ join_group name entry rest

group_step : Option String → InformationResource → Groups → Groups
group_step none entry groups = groups
group_step (some name) entry groups = join_group name entry groups

unfoldable pub groups_of : List InformationResource → Groups → Groups
unfolding group_step
groups_of [] groups = groups
groups_of (entry ∷ rest) groups = groups_of rest (group_step entry.sample_group entry groups)

-- `chosen.setdefault(anchor.at, anchor)`
unfoldable pub claim : Anchor → List Anchor → List Anchor
claim anchor [] = anchor ∷ []
claim anchor (held ∷ rest) =
    if nat_eqb held.at anchor.at then held ∷ rest else held ∷ claim anchor rest

unfoldable pub claim_all : ResourceRef → List Anchor → List Anchor → List Anchor
claim_all member [] chosen = chosen
claim_all member (anchor ∷ rest) chosen =
    claim_all member rest (claim (record anchor { stand_in = some member }) chosen)

claim_members : List InformationResource → Anchored → List Anchor → Result (List Anchor)
claim_members [] anchors chosen = ok chosen
claim_members (member ∷ rest) anchors chosen = do
  own ← anchors_at (ref_of member) anchors
  claim_members rest anchors (claim_all (ref_of member) own chosen)

-- `_group_anchors`
unfoldable pub group_anchors : List InformationResource → Anchored → Result (List Anchor)
unfolding claim_members
group_anchors members anchors = do
  chosen ← claim_members members anchors []
  ok (sorted (λ (a : Anchor). a.at) chosen)

later_stop : Option ℕ → Option ℕ → Option ℕ
later_stop (some a) (some b) = some (max a b)
later_stop _ _ = none

-- `_group_decommissioned_at`: no instant as long as one member has none.
unfoldable pub group_decommissioned_at : InformationResource → List InformationResource → Option ℕ
unfolding later_stop
group_decommissioned_at member [] = member.decommissioned_at
group_decommissioned_at member (next ∷ rest) =
    later_stop member.decommissioned_at (group_decommissioned_at next rest)

-- `min(member.expected_since for member in members)`
unfoldable pub earliest_expected : InformationResource → List InformationResource → ℕ
earliest_expected member [] = member.expected_since
earliest_expected member (next ∷ rest) = min member.expected_since (earliest_expected next rest)

abbrev pub has_examined : List Timed → Bool
has_examined [] = false
has_examined (t ∷ rest) = true

unfoldable pub any_examined : List InformationResource → Filed → Result Bool
any_examined [] collected = ok false
any_examined (member ∷ rest) collected = do
  found ← found_at (ref_of member) collected
  let others = any_examined rest collected
  if has_examined found.examined then ok true else others
