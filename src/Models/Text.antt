-- ===== src/Models/Text.antt =====
-- What models.py does to text: blank tests, hexadecimal digests and duplicate tests.
use Prim.Native.Char.{Char, code}
use Prim.Native.String.{[], ◌∷◌}
use comply_roll.Common.{
  ℕ, suc, Bool, true, false, ◌&&◌, ◌||◌, not, String, List, leb, nat_eqb, ◌==◌, if◌then◌else◌, any,
}
use comply_roll.Errors.{Result, ok, err, value_error, refuse_if}

-- `str.isspace` of one character
unfoldable pub is_space : ℕ → Bool
is_space c =
    (leb 9 c && leb c 13)
    || (leb 28 c && leb c 32)
    || nat_eqb c 133
    || nat_eqb c 160
    || nat_eqb c 5760
    || (leb 8192 c && leb c 8202)
    || nat_eqb c 8232
    || nat_eqb c 8233
    || nat_eqb c 8239
    || nat_eqb c 8287
    || nat_eqb c 12288

-- `not value or not value.strip()`
unfoldable pub is_blank : String → Bool
unfolding is_space
is_blank [] = true
is_blank (c ∷ s) = is_space (code c) && is_blank s

unfoldable pub require_text : String → String → Result (Unit {0})
unfolding is_blank
require_text value field_name = refuse_if (is_blank value) (value_error field_name)

-- `str.lower` as far as it can matter for a digest: no letter but A to F becomes
-- one of a to f.
unfoldable pub lower_char : Char → Char
lower_char c =
    if nat_eqb (code c) b'A'
    then "a"
    else if nat_eqb (code c) b'B'
    then "b"
    else if nat_eqb (code c) b'C'
    then "c"
    else if nat_eqb (code c) b'D'
    then "d"
    else if nat_eqb (code c) b'E'
    then "e"
    else if nat_eqb (code c) b'F'
    then "f"
    else c

unfoldable pub lower : String → String
lower [] = []
lower (c ∷ s) = lower_char c ∷ lower s

unfoldable pub is_hex : ℕ → Bool
is_hex c = (leb b'0' c && leb c b'9') || (leb b'a' c && leb c b'f')

unfoldable pub all_hex : String → Bool
all_hex [] = true
all_hex (c ∷ s) = is_hex (code c) && all_hex s

-- `len(text)`
unfoldable pub count_chars : String → ℕ
count_chars [] = 0
count_chars (c ∷ s) = suc (count_chars s)

unfoldable pub require_sha256 : String → String → Result String
unfolding lower lower_char is_hex all_hex count_chars
require_sha256 value field_name =
    let digest = lower value in
    if not (nat_eqb (count_chars digest) 64) || not (all_hex digest)
    then err (value_error field_name)
    else ok digest

-- `item in items`
abbrev pub contains : String → List String → Bool
contains item items = any (λ x. x == item) items

-- `len(set(items)) != len(items)`
abbrev pub has_duplicates : List String → Bool
has_duplicates List.[] = false
has_duplicates (List.◌∷◌ x xs) = contains x xs || has_duplicates xs
