-- ===== src/Common/Order/Tuple.antt =====
-- The order of Python tuples: the first unequal place decides.
use mathlib.Core.Path.{◌≡◌, ap₂}
use mathlib.Core.Bool.{Bool, true, false}
use native.Mathlib.Omega.{arith}
use comply_roll.Common.Tests.{if◌then◌else◌}
use comply_roll.Common.Order.{Order, ◌≤?◌}

module _ {ℓ κ} {A : Type ℓ} {B : Type κ} ⦃o : Order A⦄ ⦃p : Order B⦄ where
  abbrev pub le_pair : A × B → A × B → Bool
  le_pair (a, b) (c, d) = if a ≤? c then (if c ≤? a then b ≤? d else true) else false

  pub le_pair_total : (x y : A × B) → le_pair x y ≡ false → le_pair y x ≡ true
  le_pair_total (a, b) (c, d) h = ground (arith, o.total a c, p.total b d)

  pub le_pair_antisymm : (x y : A × B) → le_pair x y ≡ true → le_pair y x ≡ true → x ≡ y
  le_pair_antisymm (a, b) (c, d) h k =
      ap₂ (λ u v. (u, v)) (o.antisymm a c (ground arith) (ground arith))
        (p.antisymm b d (ground arith) (ground arith))

  pub le_pair_trans : (x y z : A × B) → le_pair x y ≡ true → le_pair y z ≡ true → le_pair x z ≡ true
  le_pair_trans (a, b) (c, d) (e, f) h k = ground (
    arith,
    o.trans a c e,
    o.trans c e a,
    o.trans e a c,
    o.total a c,
    o.total c a,
    o.total c e,
    o.total e c,
    p.trans b d f,
  )

  instance abbrev pub pair_order : Order (A × B)
  pair_order = record {
    le = le_pair;
    total = le_pair_total;
    trans = le_pair_trans;
    antisymm = le_pair_antisymm;
  }

-- `False < True`
abbrev pub le_bool : Bool → Bool → Bool
le_bool false b = true
le_bool true b = b

pub le_bool_total : (a b : Bool) → le_bool a b ≡ false → le_bool b a ≡ true
le_bool_total a b h = ground arith

pub le_bool_antisymm : (a b : Bool) → le_bool a b ≡ true → le_bool b a ≡ true → a ≡ b
le_bool_antisymm a b h k = ground arith

pub le_bool_trans : (a b c : Bool) → le_bool a b ≡ true → le_bool b c ≡ true → le_bool a c ≡ true
le_bool_trans a b c h k = ground arith

instance abbrev pub bool_order : Order Bool
bool_order = record {
  le = le_bool;
  total = le_bool_total;
  trans = le_bool_trans;
  antisymm = le_bool_antisymm;
}
