-- ===== src/Common/Order.antt =====
-- Orders on the keys that the program sorts by: numbers, texts, and tuples of them.
pub mod Text
pub mod Tuple
use Prim.Native.Nat.{ℕ}
use mathlib.Core.Path.{◌≡◌}
use mathlib.Core.Logic.{inl, inr}
use mathlib.Core.Bool.{Bool, true, false}
use native.Mathlib.Omega.{arith}
use comply_roll.Common.Tests.{leb, if◌then◌else◌, Bool-cases}

pub record Order {ℓ} (K : Type ℓ) : Type ℓ where
  pub le : K → K → Bool
  pub total : (a b : K) → le a b ≡ false → le b a ≡ true
  pub trans : (a b c : K) → le a b ≡ true → le b c ≡ true → le a c ≡ true
  pub antisymm : (a b : K) → le a b ≡ true → le b a ≡ true → a ≡ b

infix 50 ◌≤?◌ ◌<?◌ ◌=?◌
abbrev pub ◌≤?◌ {ℓ} : {K : Type ℓ} ⦃o : Order K⦄ → K → K → Bool
◌≤?◌ ⦃o⦄ = o.le

-- `a < b`
abbrev pub ◌<?◌ {ℓ} : {K : Type ℓ} ⦃o : Order K⦄ → K → K → Bool
a <? b = if b ≤? a then false else true

-- `a == b`
abbrev pub ◌=?◌ {ℓ} : {K : Type ℓ} ⦃o : Order K⦄ → K → K → Bool
a =? b = if a ≤? b then b ≤? a else false

module _ {ℓ} {K : Type ℓ} ⦃o : Order K⦄ where
  pub ≤?_refl : (a : K) → (a ≤? a) ≡ true
  ≤?_refl a = elim (Bool-cases (a ≤? a)) [ inl h ↦ h | inr h ↦ o.total a a h ]

  pub =?_sound : (a b : K) → (a =? b) ≡ true → a ≡ b
  =?_sound a b h = o.antisymm a b (ground arith) (ground arith)

  pub =?_refl : (a : K) → (a =? a) ≡ true
  =?_refl a = ground (arith, ≤?_refl a)

pub le_nat_antisymm : (a b : ℕ) → leb a b ≡ true → leb b a ≡ true → a ≡ b
le_nat_antisymm a b h k = ground arith

pub le_nat_total : (a b : ℕ) → leb a b ≡ false → leb b a ≡ true
le_nat_total a b h = ground arith

pub le_nat_trans : (a b c : ℕ) → leb a b ≡ true → leb b c ≡ true → leb a c ≡ true
le_nat_trans a b c h k = ground arith

instance abbrev pub nat_order : Order ℕ
nat_order = record {
  le = leb;
  total = le_nat_total;
  trans = le_nat_trans;
  antisymm = le_nat_antisymm;
}

-- Of two values, the one with the lesser key, the first where neither has it.
abbrev pub pick {ℓ κ} : {A : Type ℓ} {K : Type κ} ⦃o : Order K⦄ → (A → K) → A → A → A
pick key held item = if key item <? key held then item else held

pub pick_assoc {ℓ κ} :
    {A : Type ℓ} {K : Type κ} ⦃o : Order K⦄ (key : A → K) (a b c : A)
    → pick key (pick key a b) c ≡ pick key a (pick key b c)
pick_assoc ⦃o⦄ key a b c = ground (
  arith,
  o.trans (key a) (key b) (key c),
  o.trans (key b) (key a) (key c),
  o.trans (key a) (key c) (key b),
  o.trans (key b) (key c) (key a),
  o.trans (key c) (key a) (key b),
  o.trans (key c) (key b) (key a),
  o.total (key a) (key b),
  o.total (key b) (key c),
  o.total (key a) (key c),
)
