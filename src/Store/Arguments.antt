-- ===== src/Store/Arguments.antt =====
-- store/sqlite.py: the checks of arguments, and the JSON that an event may carry.
use Prim.Native.Char.{Char, code}
use Prim.Native.String.{[], ◌∷◌}
use comply_roll.Common.{
  ℕ, zero, suc, Bool, true, false, ◌&&◌, ◌||◌, not, String, if◌then◌else◌, nat_eqb, ltb, leb, ℤ,
  pos, negsuc,
}
use comply_roll.Models.Text.{is_space}
use comply_roll.Errors.{Result, ok, err, refuse_if, ◌>>◌, value_error}

is_alphanumeric : ℕ → Bool
is_alphanumeric c =
    (leb b'0' c && leb c b'9') || (leb b'A' c && leb c b'Z') || (leb b'a' c && leb c b'z')

-- `[A-Za-z0-9._:/-]`
is_name_char : ℕ → Bool
unfolding is_alphanumeric
is_name_char c =
    is_alphanumeric c
    || nat_eqb c b'.'
    || nat_eqb c b'_'
    || nat_eqb c b':'
    || nat_eqb c b'/'
    || nat_eqb c b'-'

all_name_chars : String → Bool
unfolding is_name_char
all_name_chars [] = true
all_name_chars (c ∷ s) = is_name_char (code c) && all_name_chars s

-- `_NAME_PATTERN.fullmatch(value)`
unfoldable pub is_name_pattern : String → Bool
unfolding is_alphanumeric all_name_chars
is_name_pattern [] = false
is_name_pattern (c ∷ s) = is_alphanumeric (code c) && all_name_chars s

unfoldable pub size : String → ℕ
size [] = 0
size (c ∷ s) = suc (size s)

ends_in_space : Char → String → Bool
ends_in_space c [] = is_space (code c)
ends_in_space c (d ∷ s) = ends_in_space d s

-- `not value or value != value.strip()`
unfoldable pub is_untrimmed : String → Bool
unfolding ends_in_space
is_untrimmed [] = true
is_untrimmed (c ∷ s) = is_space (code c) || ends_in_space c s

unfoldable pub require_name : String → String → Result (Unit {0})
unfolding is_untrimmed size is_name_pattern
require_name value field_name =
    refuse_if (is_untrimmed value) (value_error field_name)
    >> refuse_if (ltb 500 (size value) || not (is_name_pattern value)) (value_error field_name)

-- The checks of a number return it.
unfoldable pub require_nonnegative_integer : ℤ → String → Result ℕ
require_nonnegative_integer (pos n) field_name = ok n
require_nonnegative_integer (negsuc n) field_name = err (value_error field_name)

-- `low <= value <= high`
abbrev pub require_between : ℕ → ℕ → ℤ → String → Result ℕ
require_between low high (pos n) field_name =
    if leb low n && leb n high then ok n else err (value_error field_name)
require_between low high (negsuc n) field_name = err (value_error field_name)

unfoldable pub require_positive_integer : ℤ → String → Result ℕ
require_positive_integer (pos zero) field_name = err (value_error field_name)
require_positive_integer (pos (suc n)) field_name = ok (suc n)
require_positive_integer (negsuc n) field_name = err (value_error field_name)

abbrev pub max_read_batch : ℕ
max_read_batch = 10000

unfoldable pub require_read_limit : ℤ → Result ℕ
require_read_limit limit = require_between 1 max_read_batch limit "limit"

abbrev pub schema_version : ℕ
schema_version = 1

abbrev pub supported_schema_version : ℕ
supported_schema_version = 4

unfoldable pub require_supported_schema : ℤ → Result ℕ
require_supported_schema value =
    require_between schema_version supported_schema_version value "requires_schema"
