-- ===== src/Correlation/Members.antt =====
-- correlation/__init__.py: the members of a group.
use mathlib.Core.List.{map}
use comply_roll.Common.{
  Bool, ◌≡◌, refl, ◌&&◌, not, List, [], ◌∷◌, ◌++◌, ap, ◌∙◌, sym, arith, subst, if◌then◌else◌,
  String, Bool-cases, inl, inr,
}
use comply_roll.Common.Order.{◌=?◌, Order, =?_sound, =?_refl}
use comply_roll.Common.Order.Text.{string_order}
use comply_roll.Common.Order.Tuple.{pair_order}
use comply_roll.Common.Sort.{sorted, insert_by}
use comply_roll.Correlation.{
  GroupKey, Grouped, VulnerabilityGroup, group_key, file_under, gather, kept, key_of, member_order,
  build_group, correlate_observations,
}
use comply_roll.Models.{Observation, is_open}

-- The members of the first entry of a key.
module _ {K : Type 0} ⦃o : Order K⦄ {A : Type 0} where
  abbrev pub held_at : K → List (K × List A) → List A
  held_at key [] = []
  held_at key ((k, members) ∷ rest) = if k =? key then members else held_at key rest

  -- A first entry of a key, then what is left.
  held_at-insert_by :
      (key : K) (e : K × List A) (filed : List (K × List A))
      → held_at key (insert_by (λ (f : K × List A). f.0) e filed) ≡ held_at key (e ∷ filed)
  unfolding insert_by
  held_at-insert_by key (k, xs) [] = refl
  held_at-insert_by key (k, xs) ((l, ys) ∷ rest) =
      ground
        (arith, held_at-insert_by key (k, xs) rest, o.trans k key l, o.trans l key k, o.total k l)

  pub held_at-sorted :
      (key : K) (filed : List (K × List A))
      → held_at key (sorted (λ (f : K × List A). f.0) filed) ≡ held_at key filed
  unfolding sorted
  held_at-sorted key [] = refl
  held_at-sorted key ((k, xs) ∷ rest) =
      held_at-insert_by key (k, xs) (sorted (λ (f : K × List A). f.0) rest)
      ∙ ground (arith, held_at-sorted key rest)

  held_at-file_under :
      (key own : K) (x : A) (filed : List (K × List A))
      → held_at key (file_under own x filed)
        ≡ (if own =? key then held_at key filed ++ x ∷ [] else held_at key filed)
  unfolding file_under
  held_at-file_under key own x [] = ground arith
  held_at-file_under key own x ((k, members) ∷ rest) = elim (Bool-cases (k =? own)) [
    | inl e ↦
        subst
          (λ l. held_at key (file_under own x ((l, members) ∷ rest)) ≡ (
            if own =? key
            then held_at key ((l, members) ∷ rest) ++ x ∷ []
            else held_at key ((l, members) ∷ rest)))
          (sym (=?_sound k own e)) (rw (=?_refl own) (ground arith))
    | inr e ↦ elim (Bool-cases (own =? key)) [
      | inl f ↦
          subst
            (λ (l : K). held_at l (file_under own x ((k, members) ∷ rest)) ≡ (
              if own =? l
              then held_at l ((k, members) ∷ rest) ++ x ∷ []
              else held_at l ((k, members) ∷ rest)))
            (=?_sound own key f)
            (rw (e, =?_refl own) (ground (arith, held_at-file_under own own x rest, =?_refl own)))
      | inr f ↦ rw (e, f) (ground (arith, held_at-file_under key own x rest))
    ]
  ]

-- An open observation with the key of a group.
abbrev pub is_under : GroupKey → Observation → Bool
is_under key o = is_open o.disposition && group_key o =? key

abbrev pub is_excluded : Observation → Bool
is_excluded o = not (is_open o.disposition)

append_assoc : {A : Type 0} (xs ys zs : List A) → (xs ++ ys) ++ zs ≡ xs ++ (ys ++ zs)
append_assoc [] ys zs = refl
append_assoc (x ∷ xs) ys zs = ap (λ l. x ∷ l) (append_assoc xs ys zs)

append-nil : {A : Type 0} (xs : List A) → xs ++ [] ≡ xs
append-nil [] = refl
append-nil (x ∷ xs) = ap (λ l. x ∷ l) (append-nil xs)

gather-excluded :
    (os : List Observation) (grouped : Grouped) (excluded : List Observation)
    → (gather os grouped excluded).1 ≡ excluded ++ kept is_excluded os
unfolding gather kept
gather-excluded [] grouped excluded = sym (append-nil excluded)
gather-excluded (o ∷ os) grouped excluded = elim (Bool-cases (is_open o.disposition)) [
  | inl e ↦ rw (e, gather-excluded os (file_under (group_key o) o grouped) excluded)
  | inr e ↦
      rw (e, gather-excluded os grouped (excluded ++ o ∷ []))
        (append_assoc excluded (o ∷ []) (kept is_excluded os))
]

pub gather-held :
    (key : GroupKey) (os : List Observation) (grouped : Grouped) (excluded : List Observation)
    → held_at key (gather os grouped excluded).0 ≡ held_at key grouped ++ kept (is_under key) os
unfolding gather kept
gather-held key [] grouped excluded = sym (append-nil (held_at key grouped))
gather-held key (o ∷ os) grouped excluded = elim (Bool-cases (is_open o.disposition)) [
  | inl e ↦ rw e (
      gather-held key os (file_under (group_key o) o grouped) excluded
      ∙ ap (λ l. l ++ kept (is_under key) os) (held_at-file_under key (group_key o) o grouped)
      ∙ (elim (Bool-cases (group_key o =? key)) [
        | inl f ↦ rw f (append_assoc (held_at key grouped) (o ∷ []) (kept (is_under key) os))
        | inr f ↦ rw f
      ]))
  | inr e ↦ rw (e, gather-held key os grouped (excluded ++ o ∷ []))
]

-- The observations of the first group of a key.
abbrev pub members_of : GroupKey → List VulnerabilityGroup → List Observation
members_of key [] = []
members_of key (g ∷ rest) =
    let own : GroupKey = (g.source_type, (g.source_record_id, g.context_key)) in
    if own =? key then g.observations else members_of key rest

members_of-map :
    (sha256_hex : String → String) (key : GroupKey) (grouped : Grouped)
    → members_of key (map (build_group sha256_hex) grouped)
      ≡ sorted member_order (held_at key grouped)
unfolding build_group sorted
members_of-map sha256_hex key [] = refl
members_of-map sha256_hex key ((k, members) ∷ rest) = elim (Bool-cases (k =? key)) [
  | inl f ↦ rw f
  | inr f ↦ rw (f, members_of-map sha256_hex key rest)
]

-- For every key the first group with that key holds exactly the open observations with the key,
-- sorted by their member order (none where there is no such group); the observations that are not
-- open are excluded, in the order in which they came.
pub correlate_observations_lem :
    (sha256_hex : String → String) (os : List Observation) (key : GroupKey)
    → (members_of key (correlate_observations sha256_hex os).groups
        ≡ sorted member_order (kept (is_under key) os))
      × ((correlate_observations sha256_hex os).excluded ≡ kept is_excluded os)
unfolding correlate_observations
correlate_observations_lem sha256_hex os key = (
  members_of-map sha256_hex key (sorted key_of (gather os [] []).0)
      ∙ ap (sorted member_order)
          (held_at-sorted key (gather os [] []).0 ∙ gather-held key os [] []),
  gather-excluded os [] [],
)
