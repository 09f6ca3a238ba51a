-- ===== src/Store/Numbered.antt =====
-- store/sqlite.py: what the aggregates of the tables return for rows numbered without a gap.
use comply_roll.Common.{
  subst, ℕ, suc, ◌+◌, ◌≤◌, ◌<◌, ◌≡◌, refl, ap, sym, Bool, true, List, [], ◌∷◌, ◌++◌, length, some,
  arith, Bool-cases, inl, inr,
}
use comply_roll.Store.Rows.{rows_where, highest_of, least_of, larger}
use comply_roll.Store.History.{is_contiguous}

module _ {ℓ} {A : Type ℓ} (column : A → ℕ) where
  -- The column counts up from one past `start`.
  abbrev pub IsNumbered : ℕ → List A → Type 0
  IsNumbered start [] = Unit
  IsNumbered start (r ∷ rs) = (column r ≡ suc start) × IsNumbered (suc start) rs

  -- The column ascends, as a key of the table does.
  abbrev pub IsAscending : ℕ → List A → Type 0
  IsAscending below [] = Unit
  IsAscending below (r ∷ rs) = (below < column r) × IsAscending (column r) rs

  pub IsNumbered-append :
      (start : ℕ) (rs ss : List A)
      → IsNumbered start rs
      → IsNumbered (start + length rs) ss
      → IsNumbered start (rs ++ ss)
  IsNumbered-append start [] ss h k = subst (λ n. IsNumbered n ss) (omega arith) k
  IsNumbered-append start (r ∷ rs) ss h k =
      (h.0, IsNumbered-append (suc start) rs ss h.1 (subst (λ n. IsNumbered n ss) (omega arith) k))

  highest_above :
      (start : ℕ) (rs : List A)
      → IsNumbered start rs
      → larger start (highest_of column rs) ≡ start + length rs
  unfolding highest_of
  highest_above start [] h = ground arith
  highest_above start (r ∷ rs) h = ground (arith, h.0, highest_above (suc start) rs h.1)

  pub highest_of-numbered : (rs : List A) → IsNumbered 0 rs → highest_of column rs ≡ length rs
  highest_of-numbered rs h = ground (arith, highest_above 0 rs h)

  least_of-numbered :
      (start : ℕ) (r : A) (rs : List A)
      → IsNumbered start (r ∷ rs)
      → least_of column (r ∷ rs) ≡ some (suc start)
  unfolding least_of
  least_of-numbered start r [] h = ap some h.0
  least_of-numbered start r (s ∷ rs) h =
      rw (least_of-numbered (suc start) s rs h.1) (ground (arith, h.0))

  pub numbered-is_contiguous : (rs : List A) → IsNumbered 0 rs → is_contiguous column rs ≡ true
  numbered-is_contiguous [] h = refl
  numbered-is_contiguous (r ∷ rs) h =
      ground (arith, highest_of-numbered (r ∷ rs) h, least_of-numbered 0 r rs h)

  -- Ascending rows run at least as far as their number.
  ascending_far :
      (start : ℕ) (rs : List A)
      → IsAscending start rs
      → start + length rs ≤ larger start (highest_of column rs)
  unfolding highest_of
  ascending_far start [] h = ground arith
  ascending_far start (r ∷ rs) h = ground (arith, h.0, ascending_far (column r) rs h.1)

  tight :
      (start : ℕ) (rs : List A)
      → IsAscending start rs
      → larger start (highest_of column rs) ≡ start + length rs
      → IsNumbered start rs
  unfolding highest_of
  tight start [] h far = tt
  tight start (r ∷ rs) h far =
      let beyond = ascending_far (column r) rs h.1 in
      let next : column r ≡ suc start = ground (arith, h.0, beyond, far) in
      (
        next,
        tight (suc start) rs (subst (λ n. IsAscending n rs) next h.1)
            (ground (arith, h.0, beyond, far, next)),
      )

  -- Rows in the order of their key pass the two counts only without a gap.
  pub is_contiguous-numbered :
      (rs : List A) → IsAscending 0 rs → is_contiguous column rs ≡ true → IsNumbered 0 rs
  is_contiguous-numbered [] h k = tt
  is_contiguous-numbered (r ∷ rs) h k = tight 0 (r ∷ rs) h (ground (arith, k))

  pub IsNumbered-IsAscending :
      (start : ℕ) (rs : List A) → IsNumbered start rs → IsAscending start rs
  IsNumbered-IsAscending start [] h = tt
  IsNumbered-IsAscending start (r ∷ rs) h = (
    omega (arith, h.0),
    subst (λ n. IsAscending n rs) (sym h.0) (IsNumbered-IsAscending (suc start) rs h.1),
  )

pub rows_where-append {ℓ} :
    {A : Type ℓ} (test : A → Bool) (rs ss : List A)
    → rows_where test (rs ++ ss) ≡ rows_where test rs ++ rows_where test ss
unfolding rows_where
rows_where-append test [] ss = refl
rows_where-append test (r ∷ rs) ss = elim (Bool-cases (test r)) [
  | inl e ↦ rw (e, rows_where-append test rs ss)
  | inr e ↦ rw (e, rows_where-append test rs ss)
]
