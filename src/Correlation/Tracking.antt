-- ===== src/Correlation/Tracking.antt =====
-- correlation/__init__.py: `tracking_id_for`, with `json.dumps` of three texts as it writes them
-- under `ensure_ascii` and the separators "," and ":".
use Prim.Native.Char.{Char, code}
use Prim.Native.String.{[], ◌∷◌, ◌++◌}
use comply_roll.Common.{ℕ, ◌+◌, ◌-◌, ◌/◌, ◌%◌, String, ltb, leb, nat_eqb, ◌&&◌, if◌then◌else◌}

-- The digit at a place of the sixteen.
char_at : ℕ → Char → String → Char
char_at n c [] = c
char_at n c (d ∷ rest) = if nat_eqb n 0 then d else char_at (n - 1) c rest

hex_digit : ℕ → Char
unfolding char_at
hex_digit n = char_at n "0" "0123456789abcdef"

-- `'\\u{0:04x}'`
unfoldable pub unicode_escape : ℕ → String
unfolding hex_digit
unicode_escape n =
    "\\u"
    ++ hex_digit (n / 4096 % 16)
      ∷ hex_digit (n / 256 % 16)
      ∷ hex_digit (n / 16 % 16)
      ∷ hex_digit (n % 16)
      ∷ []

-- One character of a JSON text: a short escape, itself, one escape or a surrogate pair.
unfoldable pub json_char : Char → String
unfolding unicode_escape
json_char c =
    let n = code c in
    if nat_eqb n 34
    then "\\\""
    else if nat_eqb n 92
    then "\\\\"
    else if nat_eqb n 10
    then "\\n"
    else if nat_eqb n 13
    then "\\r"
    else if nat_eqb n 9
    then "\\t"
    else if nat_eqb n 8
    then "\\b"
    else if nat_eqb n 12
    then "\\f"
    else if leb 32 n && leb n 126
    then c ∷ []
    else if ltb n 65536
    then unicode_escape n
    else unicode_escape (55296 + (n - 65536) / 1024 % 1024)
      ++ unicode_escape (56320 + (n - 65536) % 1024)

json_chars : String → String
unfolding json_char
json_chars [] = []
json_chars (c ∷ s) = json_char c ++ json_chars s

unfoldable pub json_text : String → String
unfolding json_chars
json_text s = "\"" ++ json_chars s ++ "\""

-- `digest[:TRACKING_ID_DIGEST_LENGTH]`
first_chars : ℕ → String → String
first_chars n [] = []
first_chars n (c ∷ s) = if nat_eqb n 0 then [] else c ∷ first_chars (n - 1) s

abbrev pub tracking_id_prefix : String
tracking_id_prefix = "case-"

abbrev pub tracking_id_digest_length : ℕ
tracking_id_digest_length = 16

unfoldable pub tracking_payload : String → String → String → String
unfolding json_text
tracking_payload source_type source_record_id context_key =
    "["
    ++ json_text source_type
    ++ ","
    ++ json_text source_record_id
    ++ ","
    ++ json_text context_key
    ++ "]"

unfoldable pub tracking_id_for : (String → String) → String → String → String → String
unfolding first_chars
tracking_id_for sha256_hex source_type source_record_id context_key =
    tracking_id_prefix
    ++ first_chars tracking_id_digest_length
        (sha256_hex (tracking_payload source_type source_record_id context_key))
