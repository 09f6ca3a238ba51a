-- ===== src/History/Fields.antt =====
-- history/fold.py: the readers of the fields of a payload; events/contracts.py: `parse_utc`.
-- `fromisoformat` is Python's: the clock face that a text shows and its offset, if it has one.
use Prim.Native.Char.{code}
use comply_roll.Common.{
  ℕ, Bool, true, false, ◌&&◌, ◌||◌, ◌==◌, String, List, Option, none, some, nat_eqb, if◌then◌else◌,
  ℤ, pos, negsuc,
}
use mathlib.Core.List.{[] as end, ◌∷◌ as more}
use comply_roll.Errors.{Result, ok, err, ◌>>=◌, value_error, history_error}
use comply_roll.Instant.{Datetime, Offset, to_utc, utc}
use comply_roll.Models.{CaseStatus, PainRating}
use comply_roll.Models.Text.{is_space, is_blank}
use comply_roll.Store.Json.{
  Json, Values, Fields, null, boolean, integer, text, array, no_value, value, no_field, field,
}

-- `str.lstrip`, `str.rstrip`
unfoldable pub lstrip : String → String
unfolding is_space
lstrip String.[] = ""
lstrip (String.◌∷◌ c s) = let rest = lstrip s in if is_space (code c) then rest else String.◌∷◌ c s

unfoldable pub rstrip : String → String
unfolding is_space
rstrip String.[] = ""
rstrip (String.◌∷◌ c s) =
    let rest = rstrip s in if is_space (code c) && rest == "" then "" else String.◌∷◌ c rest

-- `f"{text[:-1]}+00:00"` if the text ends with Z or z
unfoldable pub with_offset : String → String
with_offset String.[] = ""
with_offset (String.◌∷◌ c String.[]) =
    if nat_eqb (code c) b'Z' || nat_eqb (code c) b'z' then "+00:00" else String.◌∷◌ c String.[]
with_offset (String.◌∷◌ c (String.◌∷◌ d s)) = String.◌∷◌ c (with_offset (String.◌∷◌ d s))

-- `payload.get(key)`, where the last member of a name holds; None and null are the same.
unfoldable pub get : String → Fields → Json
get key no_field = null
get key (field name held fs) = elim (has key fs) [
  | true ↦ get key fs
  | false ↦ if name == key then held else null
]
  where
    has : String → Fields → Bool
    has key no_field = false
    has key (field name held fs) = name == key || has key fs

unfoldable pub get_text : Fields → String → Result String
unfolding get
get_text payload key = elim (get key payload) [ text s ↦ ok s | _ ↦ err (history_error key) ]

unfoldable pub get_optional_text : Fields → String → Result (Option String)
unfolding get
get_optional_text payload key = elim (get key payload) [
  | null ↦ ok none
  | text s ↦ ok (some s)
  | _ ↦ err (history_error key)
]

unfoldable pub get_flag : Fields → String → Result Bool
unfolding get
get_flag payload key = elim (get key payload) [ boolean b ↦ ok b | _ ↦ err (history_error key) ]

unfoldable pub get_count : Fields → String → Result ℤ
unfolding get
get_count payload key = elim (get key payload) [ integer n ↦ ok n | _ ↦ err (history_error key) ]

-- `PainRating(n)`
unfoldable pub rating_of : ℤ → Option PainRating
rating_of (pos n) =
    if nat_eqb n 1
    then some PainRating.n1
    else if nat_eqb n 2
    then some PainRating.n2
    else if nat_eqb n 3
    then some PainRating.n3
    else if nat_eqb n 4
    then some PainRating.n4
    else if nat_eqb n 5
    then some PainRating.n5
    else none
rating_of (negsuc n) = none

-- `CaseStatus(text)`
unfoldable pub status_of_text : String → Option CaseStatus
status_of_text s =
    if s == "new"
    then some CaseStatus.new
    else if s == "evaluating"
    then some CaseStatus.evaluating
    else if s == "active"
    then some CaseStatus.active
    else if s == "partially_mitigated"
    then some CaseStatus.partially_mitigated
    else if s == "fully_mitigated"
    then some CaseStatus.fully_mitigated
    else if s == "remediated"
    then some CaseStatus.remediated
    else if s == "accepted"
    then some CaseStatus.accepted
    else if s == "false_positive"
    then some CaseStatus.false_positive
    else if s == "closed"
    then some CaseStatus.closed
    else none

-- A value of an enum, with the error of a reader where there is none.
abbrev pub or_refused {ℓ} : {A : Type ℓ} → String → Option A → Result A
or_refused key none = err (history_error key)
or_refused key (some a) = ok a

unfoldable pub get_rating : Fields → String → Result PainRating
unfolding get_count rating_of
get_rating payload key = get_count payload key >>= λ n. or_refused key (rating_of n)

unfoldable pub get_status : Fields → String → Result CaseStatus
unfolding get_text status_of_text
get_status payload key = get_text payload key >>= λ s. or_refused key (status_of_text s)

unfoldable pub get_optional_status : Fields → String → Result (Option CaseStatus)
unfolding get get_status
get_optional_status payload key = elim (get key payload) [
  | null ↦ ok none
  | _ ↦ get_status payload key >>= λ status. ok (some status)
]

unfoldable pub texts_of : String → Values → Result (List String)
texts_of key no_value = ok end
texts_of key (value v vs) = elim v [
  | text s ↦ texts_of key vs >>= λ rest. ok (more s rest)
  | _ ↦ err (history_error key)
]

unfoldable pub get_text_list : Fields → String → Result (List String)
unfolding get texts_of
get_text_list payload key = elim (get key payload) [
  | array vs ↦ texts_of key vs
  | _ ↦ err (history_error key)
]

module _ (fromisoformat : String → Option (ℕ × Option Offset)) where
  -- An aware reading in UTC; every other one is a `ValueError`.
  abbrev pub aware_utc : Option (ℕ × Option Offset) → Result Datetime
  aware_utc none = err (value_error "timestamp")
  aware_utc (some (face, none)) = err (value_error "timestamp")
  aware_utc (some (face, some offset)) = elim (to_utc (record { face = face; offset = offset })) [
    | err raised ↦ err (value_error "timestamp")
    | ok at ↦ ok (utc at)
  ]

  unfoldable pub parse_utc : String → Result Datetime
  unfolding is_blank lstrip rstrip with_offset to_utc
  parse_utc given =
      if is_blank given
      then err (value_error "timestamp")
      else aware_utc (fromisoformat (with_offset (rstrip (lstrip given))))

  unfoldable pub get_timestamp : Fields → String → Result Datetime
  unfolding get_text parse_utc
  get_timestamp payload key = get_text payload key >>= λ s. elim (parse_utc s) [
    | err raised ↦ err (history_error key)
    | ok at ↦ ok at
  ]

  unfoldable pub get_optional_timestamp : Fields → String → Result (Option Datetime)
  unfolding get get_timestamp
  get_optional_timestamp payload key = elim (get key payload) [
    | null ↦ ok none
    | _ ↦ get_timestamp payload key >>= λ at. ok (some at)
  ]
