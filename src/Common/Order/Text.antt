-- ===== src/Common/Order/Text.antt =====
-- The order of two `str` values, by code points, as Python's `<=` on them.
use Prim.Native.Nat.{ℕ, Ordering, compare as compare_ℕ}
use Prim.Native.Char.{code}
use Prim.Native.String.{String, compare, then as and_then, [], ◌∷◌}
use Prim.Native.String.compare
use mathlib.Core.Path.{◌≡◌, refl}
use mathlib.Core.Bool.{Bool, true, false}
use native.Mathlib.Omega.{arith}
use text.Mathlib.TextEquality.{path_by_compare}
use comply_roll.Common.Order.{Order}

abbrev pub not_gt : Ordering → Bool
not_gt o = elim o [ Ordering.gt ↦ false | _ ↦ true ]

abbrev pub le_str : String → String → Bool
le_str s t = not_gt (compare s t)

-- The answers for (s, t) and (t, s) mirror each other.
abbrev flip : Ordering → Ordering
flip o = elim o [
  | Ordering.lt ↦ Ordering.gt
  | Ordering.eq ↦ Ordering.eq
  | Ordering.gt ↦ Ordering.lt
]

flip-then :
    (m n : ℕ) (o : Ordering) → flip (and_then (compare_ℕ m n) o) ≡ and_then (compare_ℕ n m) (flip o)
flip-then m n o = ground arith

compare-flip : (s t : String) → flip (compare s t) ≡ compare t s
compare-flip [] [] = refl
compare-flip [] (d ∷ t) = rw (compare.nil-cons, compare.cons-nil)
compare-flip (c ∷ s) [] = rw (compare.nil-cons, compare.cons-nil)
compare-flip (c ∷ s) (d ∷ t) =
    rw (compare.cons-cons c d s t, compare.cons-cons d c t s, ← compare-flip s t)
      (flip-then (code c) (code d) (compare s t))

not_gt-flip : (o : Ordering) → not_gt o ≡ false → not_gt (flip o) ≡ true
not_gt-flip o h = ground arith

eq_of_both : (o : Ordering) → not_gt o ≡ true → not_gt (flip o) ≡ true → o ≡ Ordering.eq
eq_of_both o h k = ground arith

then_trans :
    (l m n : ℕ) (o p q : Ordering)
    → (not_gt o ≡ true → not_gt p ≡ true → not_gt q ≡ true)
    → not_gt (and_then (compare_ℕ l m) o) ≡ true
    → not_gt (and_then (compare_ℕ m n) p) ≡ true
    → not_gt (and_then (compare_ℕ l n) q) ≡ true
then_trans l m n o p q ih h k = ground arith

pub le_str_total : (s t : String) → le_str s t ≡ false → le_str t s ≡ true
le_str_total s t h = rw (← compare-flip s t) (not_gt-flip (compare s t) h)

pub le_str_antisymm : (s t : String) → le_str s t ≡ true → le_str t s ≡ true → s ≡ t
le_str_antisymm s t h k = path_by_compare s t (eq_of_both (compare s t) h (rw (compare-flip s t) k))

pub le_str_trans : (s t u : String) → le_str s t ≡ true → le_str t u ≡ true → le_str s u ≡ true
le_str_trans [] t [] h k = refl
le_str_trans [] t (e ∷ u) h k = rw (compare.nil-cons e u)
le_str_trans (c ∷ s) [] u h k = cc (rw (compare.cons-nil c s) at h)
le_str_trans (c ∷ s) (d ∷ t) [] h k = cc (rw (compare.cons-nil d t) at k)
le_str_trans (c ∷ s) (d ∷ t) (e ∷ u) h k = rw (compare.cons-cons c e s u) (
    then_trans (code c) (code d) (code e) (compare s t) (compare t u) (compare s u)
      (le_str_trans s t u) (rw (compare.cons-cons c d s t) at h)
      (rw (compare.cons-cons d e t u) at k))

instance abbrev pub string_order : Order String
string_order = record {
  le = le_str;
  total = le_str_total;
  trans = le_str_trans;
  antisymm = le_str_antisymm;
}
