-- ===== src/Contracts.antt =====
-- events/contracts.py: the identifiers of streams, and which events belong on which stream.
pub mod Split
pub mod Identifiers
pub mod Kinds
mod Tests
use Prim.Native.Char.{Char, code}
use Prim.Native.String.{◌++◌}
use comply_roll.Common.{
  ℕ, zero, suc, Bool, true, false, ◌&&◌, ◌||◌, not, ◌==◌, String, List, Option, none, some, is_some,
  if◌then◌else◌, nat_eqb, leb, ltb, any, all,
}
use mathlib.Core.List.{[] as end, ◌∷◌ as more}
use comply_roll.Errors.{Result, ok, err, refuse_if, ◌>>◌, ◌>>=◌, value_error}
use comply_roll.Models.Text.{contains}

abbrev pub artifact_stream_prefix : String
artifact_stream_prefix = "artifact"

abbrev pub case_stream_prefix : String
case_stream_prefix = "case"

abbrev pub failure_stream_prefix : String
failure_stream_prefix = "failure"

abbrev pub coverage_stream_prefix : String
coverage_stream_prefix = "coverage"

-- `text[len(prefix):]` if `text.startswith(prefix)`
unfoldable pub without_prefix : String → String → Option String
without_prefix String.[] s = some s
without_prefix (String.◌∷◌ c p) String.[] = none
without_prefix (String.◌∷◌ c p) (String.◌∷◌ d s) =
    let rest = without_prefix p s in if nat_eqb (code c) (code d) then rest else none

-- The first part and the other parts of `text.split("/")`.
unfoldable pub split_slash : String → String × List String
split_slash String.[] = ("", end)
split_slash (String.◌∷◌ c s) =
    let (part, parts) = split_slash s in
    if nat_eqb (code c) b'/' then ("", more part parts) else (String.◌∷◌ c part, parts)

is_hex : ℕ → Bool
is_hex c = (leb b'0' c && leb c b'9') || (leb b'a' c && leb c b'f')

-- `^[0-9a-f]{n}$`
unfoldable pub is_hex_of : ℕ → String → Bool
unfolding is_hex
is_hex_of zero String.[] = true
is_hex_of zero (String.◌∷◌ c s) = false
is_hex_of (suc n) String.[] = false
is_hex_of (suc n) (String.◌∷◌ c s) = is_hex (code c) && is_hex_of n s

is_alphanumeric : ℕ → Bool
is_alphanumeric c =
    (leb b'0' c && leb c b'9') || (leb b'A' c && leb c b'Z') || (leb b'a' c && leb c b'z')

is_component_char : ℕ → Bool
unfolding is_alphanumeric
is_component_char c =
    is_alphanumeric c || nat_eqb c b'.' || nat_eqb c b'_' || nat_eqb c b':' || nat_eqb c b'-'

all_component_chars : String → Bool
unfolding is_component_char
all_component_chars String.[] = true
all_component_chars (String.◌∷◌ c s) = is_component_char (code c) && all_component_chars s

-- `_COMPONENT_PATTERN.fullmatch(value)`
unfoldable pub is_component : String → Bool
unfolding is_alphanumeric all_component_chars
is_component String.[] = false
is_component (String.◌∷◌ c s) = is_alphanumeric (code c) && all_component_chars s

unfoldable pub is_tracking_id : String → Bool
unfolding without_prefix is_hex_of
is_tracking_id value = elim (without_prefix "case-" value) [
  | none ↦ false
  | some digits ↦ is_hex_of 16 digits
]

-- A value that passes its test, as the functions return it.
abbrev pub checked : Bool → String → String → Result String
checked true value field_name = ok value
checked false value field_name = err (value_error field_name)

unfoldable pub require_digest : String → String → Result String
unfolding is_hex_of
require_digest value field_name = checked (is_hex_of 64 value) value field_name

unfoldable pub require_component : String → String → Result String
unfolding is_component
require_component value field_name = checked (is_component value) value field_name

unfoldable pub require_tracking_id : String → Result String
unfolding is_tracking_id
require_tracking_id value = checked (is_tracking_id value) value "tracking_id"

abbrev pub max_stream_id_length : ℕ
max_stream_id_length = 500

unfoldable pub text_length : String → ℕ
text_length String.[] = 0
text_length (String.◌∷◌ c s) = suc (text_length s)

unfoldable pub require_stream_id : String → Result String
unfolding text_length
require_stream_id value = checked (leb (text_length value) max_stream_id_length) value "stream_id"

unfoldable pub reading_stream_id : String → String → String → String → Result String
unfolding require_digest require_component require_stream_id
reading_stream_id prefix sha256 parser_name parser_version =
    require_digest sha256 "sha256" >>= λ digest.
    require_component parser_name "parser_name" >>= λ name.
    require_component parser_version "parser_version" >>= λ version.
    require_stream_id (prefix ++ ("/" ++ (digest ++ ("/" ++ (name ++ ("/" ++ version))))))

-- The three parts of a reading's identifier.
abbrev pub three_parts : String × List String → Result (String × (String × String))
three_parts (a, more b (more c end)) = ok (a, (b, c))
three_parts (a, end) = err (value_error "stream_id")
three_parts (a, more b end) = err (value_error "stream_id")
three_parts (a, more b (more c (more d rest))) = err (value_error "stream_id")

-- `stream_id[len(start):]`, refused where the text does not start so
abbrev pub after_start : Option String → Result String
after_start none = err (value_error "stream_id")
after_start (some rest) = ok rest

unfoldable pub reading_stream_components : String → String → Result (String × (String × String))
unfolding without_prefix split_slash require_digest require_component require_stream_id
reading_stream_components prefix stream_id =
    after_start (without_prefix (prefix ++ "/") stream_id) >>= λ rest.
    require_stream_id stream_id >>= λ short. three_parts (split_slash rest) >>= λ parts.
    require_digest parts.0 "sha256" >>= λ digest.
    require_component parts.1.0 "parser_name" >>= λ name.
    require_component parts.1.1 "parser_version" >>= λ version. ok (digest, (name, version))

unfoldable pub artifact_stream_id : String → String → String → Result String
unfolding reading_stream_id
artifact_stream_id = reading_stream_id artifact_stream_prefix

unfoldable pub artifact_stream_components : String → Result (String × (String × String))
unfolding reading_stream_components
artifact_stream_components = reading_stream_components artifact_stream_prefix

unfoldable pub failure_stream_id : String → String → String → Result String
unfolding reading_stream_id
failure_stream_id = reading_stream_id failure_stream_prefix

unfoldable pub failure_stream_components : String → Result (String × (String × String))
unfolding reading_stream_components
failure_stream_components = reading_stream_components failure_stream_prefix

unfoldable pub coverage_stream_id : String → Result String
unfolding require_digest require_stream_id
coverage_stream_id fingerprint = require_digest fingerprint "fingerprint" >>= λ digest.
    require_stream_id (coverage_stream_prefix ++ ("/" ++ digest))

unfoldable pub coverage_stream_fingerprint : String → Result String
unfolding without_prefix require_digest require_stream_id
coverage_stream_fingerprint stream_id =
    after_start (without_prefix (coverage_stream_prefix ++ "/") stream_id) >>= λ rest.
    require_stream_id stream_id >>= λ short. require_digest rest "fingerprint"

unfoldable pub case_stream_id : String → Result String
unfolding require_tracking_id require_stream_id
case_stream_id tracking_id = require_tracking_id tracking_id >>= λ checked_id.
    require_stream_id (case_stream_prefix ++ ("/" ++ checked_id))

unfoldable pub tracking_id_from_stream : String → Result String
unfolding without_prefix require_tracking_id
tracking_id_from_stream stream_id =
    after_start (without_prefix (case_stream_prefix ++ "/") stream_id) >>= λ rest.
    require_tracking_id rest

-- `stream_id.startswith(f"{prefix}/")`: `is_artifact_stream` and the three like it
unfoldable pub is_stream_of : String → String → Bool
unfolding without_prefix
is_stream_of prefix stream_id = is_some (without_prefix (prefix ++ "/") stream_id)

unfoldable pub stream_kind : String → Option String
unfolding is_stream_of
stream_kind stream_id =
    if is_stream_of artifact_stream_prefix stream_id
    then some artifact_stream_prefix
    else if is_stream_of case_stream_prefix stream_id
    then some case_stream_prefix
    else if is_stream_of failure_stream_prefix stream_id
    then some failure_stream_prefix
    else if is_stream_of coverage_stream_prefix stream_id
    then some coverage_stream_prefix
    else none

abbrev pub event_types : List String
event_types = more "artifact.ingested" (
    more "case.created" (
      more "case.disposition_recorded" (
        more "case.evaluated" (
          more "case.identified" (
            more "case.observation_linked" (
              more "case.pain_reduced" (
                more "coverage.recorded" (
                  more "detection.attested" (
                    more "failure.held"
                      (more "failure.recorded" (more "observation.recorded" end)))))))))))

abbrev pub artifact_stream_event_types : List String
artifact_stream_event_types = more "artifact.ingested" (more "observation.recorded" end)

-- The names that start with `case.`, and `detection.attested`.
unfoldable pub case_types_of : List String → List String
unfolding without_prefix
case_types_of end = end
case_types_of (more name names) =
    let rest = case_types_of names in
    if is_some (without_prefix "case." name) || name == "detection.attested"
    then more name rest
    else rest

abbrev pub failure_stream_event_types : List String
failure_stream_event_types =
    more "failure.recorded" (more "failure.held" (more "observation.recorded" end))

abbrev pub coverage_stream_event_types : List String
coverage_stream_event_types = more "coverage.recorded" (more "observation.recorded" end)

-- `STREAM_EVENT_TYPES[kind]`
unfoldable pub stream_event_types : String → List String
unfolding case_types_of
stream_event_types kind =
    if kind == artifact_stream_prefix
    then artifact_stream_event_types
    else if kind == case_stream_prefix
    then case_types_of event_types
    else if kind == failure_stream_prefix
    then failure_stream_event_types
    else if kind == coverage_stream_prefix
    then coverage_stream_event_types
    else end

unfoldable pub event_belongs_on_stream : String → String → Bool
unfolding stream_kind stream_event_types
event_belongs_on_stream event_type stream_id = elim (stream_kind stream_id) [
  | none ↦ false
  | some kind ↦ contains event_type (stream_event_types kind)
]
