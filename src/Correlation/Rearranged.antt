-- ===== src/Correlation/Rearranged.antt =====
-- correlation/__init__.py: groups of rearranged observations.
use mathlib.Core.List.Permᴰ
use mathlib.Core.List.{Permᴰ, map}
use comply_roll.Common.{
  String, Bool, ◌≡◌, refl, List, [], ◌∷◌, subst, sym, ◌∙◌, Bool-cases, inl, inr, if◌then◌else◌, All,
  Never, Option, none, some, ap, ◌++◌,
}
use comply_roll.Common.Order.{◌=?◌, ◌≤?◌, =?_sound}
use comply_roll.Common.Order.Text.{string_order}
use comply_roll.Common.Order.Tuple.{pair_order}
use comply_roll.Common.Sort.{sorted, insert_by}
use comply_roll.Common.Sort.Laws.{KeyedApart, sorted_of_perm}
use comply_roll.Correlation.{
  GroupKey, Grouped, VulnerabilityGroup, kept, member_order, correlate_observations, file_under,
  gather, group_key, key_of, build_group,
}
use comply_roll.Correlation.Members.{is_under, held_at, held_at-sorted, gather-held}
use comply_roll.Models.{Observation, is_open}

module _ {A : Type 0} (test : A → Bool) where
  keep : A → List A → List A
  keep x l = if test x then x ∷ l else l

  keep-Permᴰ : (x : A) {l r : List A} → Permᴰ l r → Permᴰ (keep x l) (keep x r)
  unfolding keep
  keep-Permᴰ x p = elim (Bool-cases (test x)) [ inl f ↦ rw f (Permᴰ.cons refl p) | inr f ↦ rw f p ]

  keep-swap : (x y : A) (l : List A) → Permᴰ (keep x (keep y l)) (keep y (keep x l))
  unfolding keep
  keep-swap x y l = elim (Bool-cases (test x)) [
    | inl f ↦ elim (Bool-cases (test y)) [
      | inl g ↦ rw (f, g) (Permᴰ.swap refl refl)
      | inr g ↦ rw (f, g) (Permᴰ.refl (x ∷ l))
    ]
    | inr f ↦ rw f (Permᴰ.refl (keep y l))
  ]

  kept-Permᴰ : {l r : List A} → Permᴰ l r → Permᴰ (kept test l) (kept test r)
  unfolding kept keep
  kept-Permᴰ Permᴰ.nil = Permᴰ.nil
  kept-Permᴰ (Permᴰ.cons {a = a} {b = b} {l₁ = l} {l₂ = r} e p) =
      subst (λ c. Permᴰ (keep a (kept test l)) (keep c (kept test r))) e
        (keep-Permᴰ a (kept-Permᴰ p))
  kept-Permᴰ (Permᴰ.swap {a = a} {b = b} {a' = c} {b' = d} {l = l} e f) =
      subst (λ u. Permᴰ (keep a (keep b (kept test l))) (keep u (keep d (kept test l)))) f
        (subst (λ u. Permᴰ (keep a (keep b (kept test l))) (keep b (keep u (kept test l)))) e
          (keep-swap a b (kept test l)))
  kept-Permᴰ (Permᴰ.trans p q) = Permᴰ.trans (kept-Permᴰ p) (kept-Permᴰ q)

  All-kept : (P : A → Type 0) (l : List A) → All P l → All P (kept test l)
  unfolding kept
  All-kept P [] h = h
  All-kept P (y ∷ l) h = elim (Bool-cases (test y)) [
    | inl f ↦ rw f (h.0, All-kept P l h.1)
    | inr f ↦ rw f (All-kept P l h.1)
  ]

KeyedApart-kept :
    (test : Observation → Bool) (l : List Observation)
    → KeyedApart member_order l
    → KeyedApart member_order (kept test l)
unfolding kept
KeyedApart-kept test [] h = h
KeyedApart-kept test (y ∷ l) h = elim (Bool-cases (test y)) [
  | inl f ↦ rw f (
    All-kept test (λ x. member_order y ≡ member_order x → y ≡ x) l h.0,
    KeyedApart-kept test l h.1,
  )
  | inr f ↦ rw f (KeyedApart-kept test l h.1)
]

-- The first group of a key.
abbrev pub group_of : GroupKey → List VulnerabilityGroup → Option VulnerabilityGroup
group_of key [] = none
group_of key (g ∷ rest) =
    let own : GroupKey = (g.source_type, (g.source_record_id, g.context_key)) in
    if own =? key then some g else group_of key rest

abbrev IsFilled : GroupKey × List Observation → Type 0
IsFilled (key, []) = Never
IsFilled (key, o ∷ os) = Unit

append-IsFilled :
    (key : GroupKey) (os : List Observation) (o : Observation) → IsFilled (key, os ++ o ∷ [])
append-IsFilled key [] o = tt
append-IsFilled key (x ∷ os) o = tt

file_under-IsFilled :
    (key : GroupKey) (o : Observation) (grouped : Grouped)
    → All IsFilled grouped
    → All IsFilled (file_under key o grouped)
unfolding file_under
file_under-IsFilled key o [] h = (tt, tt)
file_under-IsFilled key o ((k, members) ∷ rest) h = elim (Bool-cases (k =? key)) [
  | inl e ↦ rw e (append-IsFilled k members o, h.1)
  | inr e ↦ rw e (h.0, file_under-IsFilled key o rest h.1)
]

gather-IsFilled :
    (os : List Observation) (grouped : Grouped) (excluded : List Observation)
    → All IsFilled grouped
    → All IsFilled (gather os grouped excluded).0
unfolding gather
gather-IsFilled [] grouped excluded h = h
gather-IsFilled (o ∷ os) grouped excluded h = elim (Bool-cases (is_open o.disposition)) [
  | inl e ↦ rw e (
      gather-IsFilled os (file_under (group_key o) o grouped) excluded
        (file_under-IsFilled (group_key o) o grouped h))
  | inr e ↦ rw e (gather-IsFilled os grouped (excluded ++ o ∷ []) h)
]

insert_by-IsFilled :
    (e : GroupKey × List Observation) (grouped : Grouped)
    → IsFilled e
    → All IsFilled grouped
    → All IsFilled (insert_by key_of e grouped)
unfolding insert_by
insert_by-IsFilled e [] own h = (own, tt)
insert_by-IsFilled e (f ∷ rest) own h = elim (Bool-cases (key_of e ≤? key_of f)) [
  | inl t ↦ rw t (own, h)
  | inr t ↦ rw t (h.0, insert_by-IsFilled e rest own h.1)
]

sorted-IsFilled : (grouped : Grouped) → All IsFilled grouped → All IsFilled (sorted key_of grouped)
unfolding sorted
sorted-IsFilled [] h = tt
sorted-IsFilled (e ∷ rest) h =
    insert_by-IsFilled e (sorted key_of rest) h.0 (sorted-IsFilled rest h.1)

-- The group that members make, where there are any.
made_of : (String → String) → GroupKey → List Observation → Option VulnerabilityGroup
made_of sha256_hex key [] = none
made_of sha256_hex key (o ∷ os) = some (build_group sha256_hex (key, o ∷ os))

group_of-map :
    (sha256_hex : String → String) (key : GroupKey) (grouped : Grouped)
    → All IsFilled grouped
    → group_of key (map (build_group sha256_hex) grouped)
      ≡ made_of sha256_hex key (held_at key grouped)
unfolding made_of
group_of-map sha256_hex key [] h = refl
group_of-map sha256_hex key ((k, []) ∷ rest) h = elim h.0 [ ]
group_of-map sha256_hex key ((k, o ∷ os) ∷ rest) h = elim (Bool-cases (k =? key)) [
  | inl f ↦
      let same : k ≡ key = =?_sound k key f in
      let own : group_of key (map (build_group sha256_hex) ((k, o ∷ os) ∷ rest))
          ≡ some (build_group sha256_hex (k, o ∷ os)) =
        unfold build_group in rw f in
      own ∙ rw (f, same)
  | inr f ↦
      let on : group_of key (map (build_group sha256_hex) ((k, o ∷ os) ∷ rest))
          ≡ group_of key (map (build_group sha256_hex) rest) =
        unfold build_group in rw f in
      on ∙ rw (f, group_of-map sha256_hex key rest h.1)
]

-- A group is made of its members as they are sorted.
build_group-sorted :
    (sha256_hex : String → String) (key : GroupKey) (xs ys : List Observation)
    → sorted member_order xs ≡ sorted member_order ys
    → build_group sha256_hex (key, xs) ≡ build_group sha256_hex (key, ys)
unfolding build_group
build_group-sorted sha256_hex key xs ys e = rw e

insert_by-ne : (x : Observation) (ys : List Observation) → insert_by member_order x ys ≡ [] → ⊥
unfolding insert_by
insert_by-ne x [] h = cc
insert_by-ne x (y ∷ ys) h = elim (Bool-cases (member_order x ≤? member_order y)) [
  | inl t ↦ let bad = rw t at h in cc
  | inr t ↦ let bad = rw t at h in cc
]

made_of-sorted :
    (sha256_hex : String → String) (key : GroupKey) (xs ys : List Observation)
    → sorted member_order xs ≡ sorted member_order ys
    → made_of sha256_hex key xs ≡ made_of sha256_hex key ys
unfolding made_of sorted
made_of-sorted sha256_hex key [] [] e = refl
made_of-sorted sha256_hex key [] (y ∷ ys) e =
    absurd (insert_by-ne y (sorted member_order ys) (sym e))
made_of-sorted sha256_hex key (x ∷ xs) [] e = absurd (insert_by-ne x (sorted member_order xs) e)
made_of-sorted sha256_hex key (x ∷ xs) (y ∷ ys) e =
    ap some (build_group-sorted sha256_hex key (x ∷ xs) (y ∷ ys) e)

group_of-correlate_observations :
    (sha256_hex : String → String) (os : List Observation) (key : GroupKey)
    → group_of key (correlate_observations sha256_hex os).groups
      ≡ made_of sha256_hex key (kept (is_under key) os)
unfolding correlate_observations
group_of-correlate_observations sha256_hex os key =
    group_of-map sha256_hex key (sorted key_of (gather os [] []).0)
      (sorted-IsFilled (gather os [] []).0 (gather-IsFilled os [] [] tt))
    ∙ ap (made_of sha256_hex key)
        (held_at-sorted key (gather os [] []).0 ∙ gather-held key os [] [])

-- Where the member order tells the observations apart, the order in which they come does not reach
-- a group: rearranged, they make for every key the same first group with that key, all its fields
-- included, or none as before.
pub correlate_observations-rearranged :
    (sha256_hex : String → String) (l r : List Observation) (key : GroupKey)
    → Permᴰ l r
    → KeyedApart member_order l
    → group_of key (correlate_observations sha256_hex l).groups
      ≡ group_of key (correlate_observations sha256_hex r).groups
correlate_observations-rearranged sha256_hex l r key p apart =
    group_of-correlate_observations sha256_hex l key
    ∙ made_of-sorted sha256_hex key (kept (is_under key) l) (kept (is_under key) r) (
        sorted_of_perm member_order (kept-Permᴰ (is_under key) p)
          (KeyedApart-kept (is_under key) l apart))
    ∙ sym (group_of-correlate_observations sha256_hex r key)
