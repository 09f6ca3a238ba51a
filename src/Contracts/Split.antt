-- ===== src/Contracts/Split.antt =====
-- events/contracts.py: taking an identifier apart.
use Prim.Native.Char.{Char, code}
use Prim.Native.String.{◌++◌}
use text.Mathlib.TextLemmas.{cons-append, nil-append}
use mathlib.Core.List.{[] as end, ◌∷◌ as more}
use comply_roll.Common.{
  ℕ, zero, suc, ◌≡◌, refl, ap, ◌∙◌, Bool, true, false, ◌&&◌, String, none, some, not, and_true,
  arith, nat_eqb,
}
use comply_roll.Contracts.{
  without_prefix, split_slash, is_hex_of, is_hex, is_component, is_component_char, is_alphanumeric,
  all_component_chars,
}

unfoldable pub no_slash : String → Bool
no_slash String.[] = true
no_slash (String.◌∷◌ c s) = not (nat_eqb (code c) b'/') && no_slash s

same_code : (c : Char) → nat_eqb (code c) (code c) ≡ true
same_code c = ground arith

pub without_prefix-append : (p s : String) → without_prefix p (p ++ s) ≡ some s
unfolding without_prefix
without_prefix-append String.[] s = ap (λ t. some t) (nil-append s)
without_prefix-append (String.◌∷◌ c p) s =
    ap (without_prefix (String.◌∷◌ c p)) (cons-append c p s)
    ∙ rw (same_code c) (without_prefix-append p s)

-- The parts of a text up to its first separator, and of what follows.
pub split_slash-append :
    (a s : String)
    → no_slash a ≡ true
    → split_slash (a ++ ("/" ++ s)) ≡ (a, more (split_slash s).0 (split_slash s).1)
unfolding split_slash no_slash
split_slash-append String.[] s h =
    let slash : "/" ++ s ≡ String.◌∷◌ "/" s =
      cons-append "/" "" s ∙ ap (λ t. String.◌∷◌ "/" t) (nil-append s) in
    ap split_slash (nil-append ("/" ++ s) ∙ slash)
split_slash-append (String.◌∷◌ c a) s h =
    let (other, rest) = and_true (not (nat_eqb (code c) b'/')) (no_slash a) h in
    let differs : nat_eqb (code c) b'/' ≡ false = ground (arith, other) in
    ap split_slash (cons-append c a ("/" ++ s)) ∙ rw (split_slash-append a s rest, differs)

pub split_slash-one : (a : String) → no_slash a ≡ true → split_slash a ≡ (a, end)
unfolding split_slash no_slash
split_slash-one String.[] h = refl
split_slash-one (String.◌∷◌ c a) h =
    let (other, rest) = and_true (not (nat_eqb (code c) b'/')) (no_slash a) h in
    let differs : nat_eqb (code c) b'/' ≡ false = ground (arith, other) in
    rw (split_slash-one a rest, differs)

pub is_hex_of-no_slash : (n : ℕ) (s : String) → is_hex_of n s ≡ true → no_slash s ≡ true
unfolding is_hex_of is_hex no_slash
is_hex_of-no_slash zero String.[] h = refl
is_hex_of-no_slash zero (String.◌∷◌ c s) h = cc
is_hex_of-no_slash (suc n) String.[] h = cc
is_hex_of-no_slash (suc n) (String.◌∷◌ c s) h = ground (arith, h, is_hex_of-no_slash n s)

all_component_chars-no_slash : (s : String) → all_component_chars s ≡ true → no_slash s ≡ true
unfolding all_component_chars is_component_char is_alphanumeric no_slash
all_component_chars-no_slash String.[] h = refl
all_component_chars-no_slash (String.◌∷◌ c s) h =
    let (own, rest) = and_true (is_component_char (code c)) (all_component_chars s) h in
    ground (arith, own, all_component_chars-no_slash s rest)

pub is_component-no_slash : (s : String) → is_component s ≡ true → no_slash s ≡ true
unfolding is_component is_alphanumeric no_slash
is_component-no_slash String.[] h = cc
is_component-no_slash (String.◌∷◌ c s) h =
    let (own, rest) = and_true (is_alphanumeric (code c)) (all_component_chars s) h in
    ground (arith, own, all_component_chars-no_slash s rest)

-- A text that starts with another character.
pub without_prefix-other :
    (c d : Char) (p q s : String)
    → nat_eqb (code c) (code d) ≡ false
    → without_prefix (String.◌∷◌ c p) (String.◌∷◌ d q ++ s) ≡ none
unfolding without_prefix
without_prefix-other c d p q s differs =
    ap (without_prefix (String.◌∷◌ c p)) (cons-append d q s) ∙ rw differs

-- One that starts with the same.
pub without_prefix-same :
    (c : Char) (p q s : String)
    → without_prefix (String.◌∷◌ c p) (String.◌∷◌ c q ++ s) ≡ without_prefix p (q ++ s)
unfolding without_prefix
without_prefix-same c p q s =
    ap (without_prefix (String.◌∷◌ c p)) (cons-append c q s) ∙ rw (same_code c)
