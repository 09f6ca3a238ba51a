-- ===== src/Coverage/Run/Split.antt =====
-- The cut at expectedSince of a list of anchors in time order.
use comply_roll.Common.{
  ℕ, ◌≤◌, ◌<◌, ◌≡◌, refl, ap, subst, true, List, [], ◌∷◌, ◌++◌, inl, inr, leb, length, All, Any,
  leb→le, Bool-cases, arith, some,
}
use comply_roll.Common.Order.{nat_order}
use comply_roll.Common.Sort.{Ascending}
use comply_roll.Coverage.Evidence.{Anchor}
use comply_roll.Coverage.Run.{until, drop, last_of}

abbrev pub InTimeOrder : List Anchor → Type 0
InTimeOrder = Ascending (λ (a : Anchor). a.at)

until_late :
    (e : ℕ) (a : Anchor) (anchors : List Anchor)
    → e < a.at
    → All (λ b. leb a.at b.at ≡ true) anchors
    → until e anchors ≡ []
unfolding until
until_late e a [] h k = refl
until_late e a (b ∷ rest) h k = ground (arith, until_late e a rest h k.1, k.0)

late :
    (e : ℕ) (a : Anchor) (anchors : List Anchor)
    → e < a.at
    → All (λ b. leb a.at b.at ≡ true) anchors
    → All (λ b. e < b.at) anchors
late e a [] h k = tt
late e a (b ∷ rest) h k = (ground (arith, k.0), late e a rest h k.1)

pub record IsCut (e : ℕ) (anchors earlier later : List Anchor) : Type 0 where
  pub whole : earlier ++ later ≡ anchors
  pub early : All (λ a. a.at ≤ e) earlier
  pub late : All (λ a. e < a.at) later

-- What `until` keeps and what `drop` leaves are the two sides of the cut.
pub until-IsCut :
    (e : ℕ) (anchors : List Anchor)
    → InTimeOrder anchors
    → IsCut e anchors (until e anchors) (drop (length (until e anchors)) anchors)
unfolding until drop
until-IsCut e [] o = record { whole = refl; early = tt; late = tt }
until-IsCut e (a ∷ rest) o = elim (Bool-cases (leb a.at e)) [
  | inl h ↦
      let cut = until-IsCut e rest o.1 in
      rw (h, until, drop)
        (record {
          whole = ap (◌∷◌ a) cut.whole;
          early = (leb→le a.at e h, cut.early);
          late = cut.late;
        })
  | inr h ↦
      let lt : e < a.at = ground arith in
      rw (h, until, until_late e a rest lt o.0, drop)
        (record { whole = refl; early = tt; late = (lt, late e a rest lt o.0) })
]

pub last_of_All {ℓ} :
    (P : Anchor → Type ℓ) (anchors : List Anchor) (a : Anchor)
    → last_of anchors ≡ some a
    → All P anchors
    → P a
unfolding last_of
last_of_All P [] a e h = cc
last_of_All P (b ∷ []) a e h = subst P (cc) h.0
last_of_All P (b ∷ c ∷ rest) a e h = last_of_All P (c ∷ rest) a e h.1

pub last_of-Any {ℓ} :
    (P : Anchor → Type ℓ) (anchors : List Anchor) (a : Anchor)
    → last_of anchors ≡ some a
    → P a
    → Any P anchors
unfolding last_of
last_of-Any P [] a e h = cc
last_of-Any P (b ∷ []) a e h = inl (subst P (cc) h)
last_of-Any P (b ∷ c ∷ rest) a e h = inr (last_of-Any P (c ∷ rest) a e h)

pub All-prefix {ℓ} : (P : Anchor → Type ℓ) (xs ys : List Anchor) → All P (xs ++ ys) → All P xs
All-prefix P [] ys h = tt
All-prefix P (x ∷ xs) ys h = (h.0, All-prefix P xs ys h.1)

pub InTimeOrder-prefix : (xs ys : List Anchor) → InTimeOrder (xs ++ ys) → InTimeOrder xs
InTimeOrder-prefix [] ys h = tt
InTimeOrder-prefix (x ∷ xs) ys h =
    (All-prefix (λ y. leb x.at y.at ≡ true) xs ys h.0, InTimeOrder-prefix xs ys h.1)

pub InTimeOrder-suffix : (xs ys : List Anchor) → InTimeOrder (xs ++ ys) → InTimeOrder ys
InTimeOrder-suffix [] ys h = h
InTimeOrder-suffix (x ∷ xs) ys h = InTimeOrder-suffix xs ys h.1

-- The last anchor in time order is the latest.
pub last_of-latest :
    (anchors : List Anchor) (a : Anchor)
    → InTimeOrder anchors
    → last_of anchors ≡ some a
    → All (λ b. b.at ≤ a.at) anchors
unfolding last_of
last_of-latest [] a o e = tt
last_of-latest (b ∷ []) a o e = (ground arith, tt)
last_of-latest (b ∷ c ∷ rest) a o e =
    let tail = last_of-latest (c ∷ rest) a o.1 e in
    let first = leb→le b.at c.at o.0.0 in (omega (arith, tail.0), tail)

pub All-suffix {ℓ} : (P : Anchor → Type ℓ) (xs ys : List Anchor) → All P (xs ++ ys) → All P ys
All-suffix P [] ys h = h
All-suffix P (x ∷ xs) ys h = All-suffix P xs ys h.1
