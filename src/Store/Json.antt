-- ===== src/Store/Json.antt =====
-- store/sqlite.py: `_canonical_json_object`, the text under which the payload and the metadata of
-- an event are stored, and the caps on them. `json.dumps` is Python's, with the arguments that the
-- source gives it. A number of base `float` comes with whether it is finite and with its `repr`.
pub mod Walk
use Prim.Native.Char.{Char, code}
use Prim.Native.String.{[], ◌∷◌, ◌++◌, len}
use comply_roll.Common.{
  ℕ, zero, suc, ◌+◌, ◌*◌, ◌/◌, ◌%◌, Bool, true, false, String, if◌then◌else◌, nat_eqb, ltb, ℤ, pos,
  negsuc,
}
use comply_roll.Common.{List, length, ◌||◌}
use mathlib.Core.List.{[] as end, ◌∷◌ as more}
use comply_roll.Common.Order.Text.{string_order}
use comply_roll.Common.Sort.{sorted, insert_by}
use comply_roll.Errors.{
  Result, ok, err, refuse_if, ◌>>◌, ◌>>=◌, value_error, type_error, event_payload_limit,
}

mutual
  -- `foreign` is a value of a type that JSON does not have.
  pub data Json : Type 0 where
    null : Json
    boolean : Bool → Json
    integer : ℤ → Json
    float : Bool → String → Json
    text : String → Json
    array : Values → Json
    object : Fields → Json
    foreign : String → Json

  pub data Values : Type 0 where
    no_value : Values
    value : Json → Values → Values

  pub data Fields : Type 0 where
    no_field : Fields
    field : String → Json → Fields → Fields

-- The decimal digits of a number, the lowest first.
unfoldable pub digits_of : ℕ → ℕ → List ℕ
digits_of zero n = end
digits_of (suc fuel) n = elim (ltb n 10) [
  | true ↦ more n end
  | false ↦ more (n % 10) (digits_of fuel (n / 10))
]

char_at : ℕ → String → String
char_at n [] = []
char_at zero (c ∷ s) = c ∷ []
char_at (suc n) (c ∷ s) = char_at n s

digit : ℕ → String
unfolding char_at
digit n = char_at n "0123456789abcdef"

spell : List ℕ → String → String
unfolding digit
spell end after = after
spell (more d ds) after = spell ds (digit d ++ after)

unfoldable pub decimal : ℕ → String
unfolding digits_of spell
decimal n = spell (digits_of (suc n) n) ""

integer_text : ℤ → String
unfolding decimal
integer_text (pos n) = decimal n
integer_text (negsuc n) = "-" ++ decimal (suc n)

escaped : Char → String
unfolding digit
escaped c =
    if nat_eqb (code c) b'"'
    then "\\\""
    else if nat_eqb (code c) b'\\'
    then "\\\\"
    else if nat_eqb (code c) b'\n'
    then "\\n"
    else if nat_eqb (code c) b'\r'
    then "\\r"
    else if nat_eqb (code c) b'\t'
    then "\\t"
    else if nat_eqb (code c) 12
    then "\\f"
    else if nat_eqb (code c) 8
    then "\\b"
    else if ltb (code c) 32
    then "\\u00" ++ digit (code c / 16) ++ digit (code c % 16)
    else c ∷ []

escape : String → String
unfolding escaped
escape [] = []
escape (c ∷ s) = escaped c ++ escape s

quoted : String → String
unfolding escape
quoted s = "\"" ++ escape s ++ "\""

-- The digits that Python writes of one integer at most (`sys.int_info.default_max_str_digits`);
-- `json.dumps` raises a `ValueError` past them.
abbrev pub max_integer_digits : ℕ
max_integer_digits = 4300

unfoldable pub is_long : ℕ → Bool
unfolding digits_of
is_long n = ltb max_integer_digits (length (digits_of (suc n) n))

unfoldable mutual
  unfolding is_long

  -- Some integer is too long to be written.
  pub has_long_integer : Json → Bool
  has_long_integer null = false
  has_long_integer (boolean b) = false
  has_long_integer (integer (pos n)) = is_long n
  has_long_integer (integer (negsuc n)) = is_long (suc n)
  has_long_integer (float finite shown) = false
  has_long_integer (text s) = false
  has_long_integer (array vs) = has_long_value vs
  has_long_integer (object fs) = has_long_field fs
  has_long_integer (foreign type_name) = false

  pub has_long_value : Values → Bool
  has_long_value no_value = false
  has_long_value (value v vs) = has_long_integer v || has_long_value vs

  pub has_long_field : Fields → Bool
  has_long_field no_field = false
  has_long_field (field key v fs) = has_long_integer v || has_long_field fs

-- `sep.join(texts)`
joined : List String → String
joined end = ""
joined (more t end) = t
joined (more t rest) = t ++ "," ++ joined rest

member_text : String × String → String
unfolding quoted
member_text (key, held) = quoted key ++ ":" ++ held

member_texts : List (String × String) → List String
unfolding member_text
member_texts end = end
member_texts (more m ms) = more (member_text m) (member_texts ms)

key_of : String × String → String
key_of (key, held) = key

unfoldable mutual
  unfolding quoted integer_text joined member_texts sorted insert_by key_of

  -- `json.dumps(value, ensure_ascii=False, separators=(",", ":"), sort_keys=True)`
  pub dumps : Json → String
  dumps null = "null"
  dumps (boolean true) = "true"
  dumps (boolean false) = "false"
  dumps (integer n) = integer_text n
  dumps (float finite shown) = shown
  dumps (text s) = quoted s
  dumps (array vs) = "[" ++ joined (dumps_values vs) ++ "]"
  dumps (object fs) = "{" ++ joined (member_texts (sorted key_of (dumps_fields fs))) ++ "}"
  dumps (foreign type_name) = type_name

  pub dumps_values : Values → List String
  dumps_values no_value = end
  dumps_values (value v vs) = more (dumps v) (dumps_values vs)

  pub dumps_fields : Fields → List (String × String)
  dumps_fields no_field = end
  dumps_fields (field key v fs) = more (key, dumps v) (dumps_fields fs)

abbrev pub max_event_json_bytes : ℕ
max_event_json_bytes = 1048576

abbrev pub max_event_json_depth : ℕ
max_event_json_depth = 64

abbrev pub max_event_json_values : ℕ
max_event_json_values = 100000

unfoldable pub json_size_problem : String → Bool
json_size_problem written = ltb max_event_json_bytes (len written)

-- `stack.append((child, depth + 1))` for the children in turn; the head is the top.
push_values : Values → ℕ → List (Json × ℕ) → List (Json × ℕ)
push_values no_value depth stack = stack
push_values (value v vs) depth stack = push_values vs depth (more (v, depth) stack)

push_fields : Fields → ℕ → List (Json × ℕ) → List (Json × ℕ)
push_fields no_field depth stack = stack
push_fields (field key v fs) depth stack = push_fields fs depth (more (v, depth) stack)

-- One value: what it puts on the stack, or why it is refused.
visit : Json → ℕ → List (Json × ℕ) → String → Result (List (Json × ℕ))
unfolding push_values push_fields
visit null depth stack field_name = ok stack
visit (boolean b) depth stack field_name = ok stack
visit (integer n) depth stack field_name = ok stack
visit (float true shown) depth stack field_name = ok stack
visit (float false shown) depth stack field_name = err (value_error field_name)
visit (text s) depth stack field_name = ok stack
visit (array vs) depth stack field_name = ok (push_values vs (suc depth) stack)
visit (object fs) depth stack field_name = ok (push_fields fs (suc depth) stack)
visit (foreign type_name) depth stack field_name = err (value_error field_name)

-- The loop; its first argument is how many more values may be seen.
unfoldable pub validate_stack : ℕ → List (Json × ℕ) → String → Result (Unit {0})
unfolding visit
validate_stack left end field_name = ok tt
validate_stack zero (more top stack) field_name = err (event_payload_limit field_name)
validate_stack (suc left) (more (current, depth) stack) field_name =
    elim (ltb max_event_json_depth depth) [
      | true ↦ err (event_payload_limit field_name)
      | false ↦ elim (visit current depth stack field_name) [
        | err raised ↦ err raised
        | ok pushed ↦ validate_stack left pushed field_name
      ]
    ]

unfoldable pub validate_json_tree : Json → String → Result (Unit {0})
unfolding validate_stack
validate_json_tree j field_name = validate_stack max_event_json_values (more (j, 0) end) field_name

unfoldable pub canonical_json_object : Json → String → Result String
unfolding dumps has_long_integer validate_json_tree json_size_problem
canonical_json_object (object fs) field_name =
    validate_json_tree (object fs) field_name
    >> refuse_if (has_long_integer (object fs)) (value_error field_name)
    >> (let written = dumps (object fs) in
        refuse_if (json_size_problem written) (event_payload_limit field_name) >> ok written)
canonical_json_object j field_name = err (type_error field_name)
