-- ===== src/Correlation.antt =====
-- correlation/__init__.py: open observations grouped into vulnerabilities. `sha256_hex` is the
-- hexadecimal digest of a text's UTF-8 bytes, a parameter here.
pub mod Members
pub mod Tracking
pub mod Rearranged
mod Tests
use mathlib.Core.List.{map}
use comply_roll.Common.{
  ℕ, ◌+◌, ◌-◌, Bool, true, false, not, ◌&&◌, ◌==◌, String, Option, none, some, List, [], ◌∷◌, ◌++◌,
  ltb, if◌then◌else◌, any, is_some,
}
use comply_roll.Common.Order.{◌=?◌, Order}
use comply_roll.Common.Order.Text.{string_order}
use comply_roll.Common.Order.Tuple.{pair_order}
use comply_roll.Common.Sort.{sorted}
use comply_roll.Correlation.Tracking.{tracking_id_for}
use comply_roll.Instant.{Datetime, Offset, day}
use comply_roll.Models.{Observation, ObservationDisposition, ResourceRef, is_open}
use comply_roll.Models.Text.{is_blank, contains}

pub record VulnerabilityGroup : Type 0 where
  pub tracking_id : String
  pub source_type : String
  pub source_record_id : String
  pub context_key : String
  pub observations : List Observation
  pub resources : List ResourceRef
  pub source_identifiers : List String
  pub title : String
  pub description : String
  pub earliest_observed_at : Option Datetime
  pub detection_sources : List String
  pub untimestamped_observation_ids : List String

pub record CorrelationResult : Type 0 where
  pub groups : List VulnerabilityGroup
  pub excluded : List Observation

-- `bool(ids)`
is_filled : List String → Bool
is_filled [] = false
is_filled (_ ∷ _) = true

-- `VulnerabilityGroup.has_partial_timestamps`
unfoldable pub has_partial_timestamps : VulnerabilityGroup → Bool
unfolding is_filled
has_partial_timestamps group =
    is_some group.earliest_observed_at && is_filled group.untimestamped_observation_ids

-- `VulnerabilityGroup.observation_ids`
abbrev pub observation_ids : VulnerabilityGroup → List String
observation_ids group = map (λ (o : Observation). o.observation_id) group.observations

-- `disposition in UNRESOLVED_DISPOSITIONS`
abbrev pub is_unresolved : ObservationDisposition → Bool
is_unresolved ObservationDisposition.error = true
is_unresolved ObservationDisposition.unknown = true
is_unresolved _ = false

-- The elements that pass a test, in order.
unfoldable pub kept : {A : Type 0} → (A → Bool) → List A → List A
kept test [] = []
kept test (x ∷ xs) = if test x then x ∷ kept test xs else kept test xs

-- `CorrelationResult.unresolved`
unfoldable pub unresolved : CorrelationResult → List Observation
unresolved result = kept (λ (o : Observation). is_unresolved o.disposition) result.excluded

-- `(source_type, source_record_id, context_key)`
abbrev pub GroupKey : Type 0
GroupKey = String × (String × String)

abbrev pub group_key : Observation → GroupKey
group_key o = (o.source_type, (o.source_record_id, o.context_key))

abbrev pub MemberKey : Type 0
MemberKey = String × (String × (String × String))

-- `_member_order`
abbrev pub member_order : Observation → MemberKey
member_order o =
    (o.resource.resource_type, (o.resource.resource_id, (o.source_artifact_name, o.observation_id)))

-- The dictionary `grouped`, in its insertion order.
abbrev pub Grouped : Type 0
Grouped = List (GroupKey × List Observation)

-- `grouped.setdefault(key, []).append(observation)`
unfoldable pub file_under :
    {K : Type 0} ⦃order : Order K⦄ {A : Type 0} → K → A → List (K × List A) → List (K × List A)
file_under key o [] = (key, o ∷ []) ∷ []
file_under key o ((k, members) ∷ rest) =
    if k =? key then (k, members ++ o ∷ []) ∷ rest else (k, members) ∷ file_under key o rest

-- The loop of `correlate_observations`.
unfoldable pub gather : List Observation → Grouped → List Observation → Grouped × List Observation
gather [] grouped excluded = (grouped, excluded)
gather (o ∷ rest) grouped excluded =
    if is_open o.disposition
    then gather rest (file_under (group_key o) o grouped) excluded
    else gather rest grouped (excluded ++ o ∷ [])

-- The clock on one axis, a day up, so that an offset of less than a day is never cut off.
unfoldable pub moment : Datetime → ℕ
moment clock = elim clock.offset [
  | Offset.ahead d ↦ clock.face + day - d
  | Offset.behind d ↦ clock.face + day + d
]

-- `min(times) if times else None`: the first of the earliest.
unfoldable pub earliest : List Datetime → Option Datetime → Option Datetime
unfolding moment
earliest [] held = held
earliest (clock ∷ rest) none = earliest rest (some clock)
earliest (clock ∷ rest) (some held) =
    earliest rest (some (if ltb (moment clock) (moment held) then clock else held))

-- What the loop of `_build_group` has gathered.
record Building : Type 0 where
  seen : List ResourceRef
  identifiers : List String
  tools : List String
  observed_times : List Datetime
  untimestamped : List String
  title : String
  description : String

-- `(resource_type, resource_id) in seen_resources`
unfoldable pub is_seen : ResourceRef → List ResourceRef → Bool
is_seen ref seen =
    any
      (λ (r : ResourceRef).
        let pair : String × String = (r.resource_type, r.resource_id) in
        let own : String × String = (ref.resource_type, ref.resource_id) in pair =? own)
      seen

-- `names.add(name)`
unfoldable pub add_once : String → List String → List String
add_once name names = if contains name names then names else names ++ name ∷ []

-- `names.update(added)`
unfoldable pub add_all : List String → List String → List String
unfolding add_once
add_all [] names = names
add_all (name ∷ added) names = add_all added (add_once name names)

-- `if not held and found.strip(): held = found`
first_text : String → String → String
first_text held found = if held == "" && not (is_blank found) then found else held

with_time : Option Datetime → List Datetime → List Datetime
with_time none times = times
with_time (some clock) times = times ++ clock ∷ []

-- The loop's body.
unfoldable build_step : Observation → Building → Building
unfolding is_seen add_all first_text with_time
build_step o b = record {
  seen = if is_seen o.resource b.seen then b.seen else b.seen ++ o.resource ∷ [];
  identifiers = add_all o.source_identifiers b.identifiers;
  tools = add_once o.source_tool b.tools;
  observed_times = with_time o.observed_at b.observed_times;
  untimestamped =
      if is_some o.observed_at then b.untimestamped else b.untimestamped ++ o.observation_id ∷ [];
  title = first_text b.title o.title;
  description = first_text b.description o.description;
}

unfoldable build : List Observation → Building → Building
unfolding build_step
build [] b = b
build (o ∷ rest) b = build rest (build_step o b)

-- `_build_group`
unfoldable pub build_group : (String → String) → GroupKey × List Observation → VulnerabilityGroup
unfolding build earliest
build_group sha256_hex ((source_type, (source_record_id, context_key)), found) =
    let members = sorted member_order found in
    let b = build members (record {
      seen = [];
      identifiers = [];
      tools = [];
      observed_times = [];
      untimestamped = [];
      title = "";
      description = "";
    }) in
    record {
      tracking_id = tracking_id_for sha256_hex source_type source_record_id context_key;
      source_type = source_type;
      source_record_id = source_record_id;
      context_key = context_key;
      observations = members;
      resources = b.seen;
      source_identifiers = sorted (λ x. x) b.identifiers;
      title = b.title;
      description = b.description;
      earliest_observed_at = earliest b.observed_times none;
      detection_sources = sorted (λ x. x) b.tools;
      untimestamped_observation_ids = b.untimestamped;
    }

abbrev pub key_of : GroupKey × List Observation → GroupKey
key_of filed = filed.0

-- `correlate_observations`
unfoldable pub correlate_observations : (String → String) → List Observation → CorrelationResult
correlate_observations sha256_hex observations =
    let (grouped, excluded) = gather observations [] [] in
    record { groups = map (build_group sha256_hex) (sorted key_of grouped); excluded = excluded }
