-- ===== src/Store/Verify.antt =====
-- store/sqlite.py: `verify_history` and what it reports. A fault keeps its sequence and its code.
-- The faults of the schema objects, which are read from `sqlite_master`, are given to the model as
-- a value; the walk takes the rows of all pages in their order.
pub mod Sound
pub mod Walked
use comply_roll.Common.{
  ℕ, zero, suc, ◌+◌, ◌-◌, Bool, true, false, ◌&&◌, ◌||◌, not, ◌==◌, String, List, [], ◌∷◌, ◌++◌,
  map, length, any, Option, none, some, is_none, if◌then◌else◌, nat_eqb, ltb, leb,
}
use comply_roll.Common.Order.{nat_order}
use comply_roll.Common.Sort.{sorted, insert_by}
use comply_roll.Errors.{Result, ok, err}
use comply_roll.Store.Rows.{
  StoredEvent, Migration, Database, latest_sequence, counter_of, rows_where,
}
use comply_roll.Store.Arguments.{schema_version, supported_schema_version}
use comply_roll.Store.Json.{Json, object, canonical_json_object, json_size_problem}
use comply_roll.Store.History.{counter_problem}
use comply_roll.Store.Append.{application_id, migration_description}
use comply_roll.Store.Schema.{missing_migrations}
use comply_roll.Store.Read.{check_names, check_json}

pub record IntegrityFault : Type 0 where
  pub sequence : Option ℕ
  pub code : String

pub record IntegrityReport : Type 0 where
  pub is_sound : Bool
  pub checked_events : ℕ
  pub faults : List IntegrityFault

abbrev pub fault : Option ℕ → String → IntegrityFault
fault sequence code = record { sequence = sequence; code = code }

-- A fault where the test holds.
abbrev pub fault_if : Bool → Option ℕ → String → List IntegrityFault
fault_if true sequence code = fault sequence code ∷ []
fault_if false sequence code = []

abbrev pub is_refused {ℓ} : {A : Type ℓ} → Result A → Bool
is_refused (err raised) = true
is_refused (ok made) = false

-- `_header_faults`; `present` says whether the file holds schema objects.
unfoldable pub header_faults : Bool → Database → List IntegrityFault
header_faults present db =
    let initializable : Bool = not present && nat_eqb db.user_version 0 in
    let in_range : Bool =
      leb schema_version db.user_version && leb db.user_version supported_schema_version in
    fault_if (not initializable && not in_range) none "schema_version_unsupported"
    ++ fault_if
        (not (nat_eqb db.application_id application_id)
          && not (initializable && nat_eqb db.application_id 0))
        none "application_id_mismatch"

-- A migration record whose description is not the one that the store writes for it.
abbrev pub is_altered : Migration → Bool
is_altered m =
    leb schema_version m.version
    && leb m.version supported_schema_version
    && not (m.description == migration_description m.version)

abbrev pub numbered_fault : String → ℕ → ℕ × IntegrityFault
numbered_fault code version = (version, fault none code)

-- `_migration_faults`, for a table with its columns
unfoldable pub migration_faults : Database → List IntegrityFault
unfolding missing_migrations rows_where migration_description sorted insert_by
migration_faults db =
    let altered : List (ℕ × IntegrityFault) =
      map (λ (m : Migration). numbered_fault "migration_altered" m.version)
        (rows_where is_altered db.migrations) in
    let unexpected : Migration → Bool =
      λ (m : Migration). not (leb schema_version m.version && leb m.version db.user_version) in
    map (λ (f : ℕ × IntegrityFault). f.1)
      (sorted (λ (f : ℕ × IntegrityFault). f.0)
        (map (numbered_fault "migration_missing") (missing_migrations db) ++ altered))
    ++ (if leb schema_version db.user_version && leb db.user_version supported_schema_version
        then map (λ (m : Migration). fault none "migration_unexpected")
            (rows_where unexpected (sorted (λ (m : Migration). m.version) db.migrations))
        else [])

-- `_counter_faults`
unfoldable pub counter_faults : Database → List IntegrityFault
unfolding counter_problem latest_sequence
counter_faults db =
    fault_if
      (counter_problem db.counters
        || not (nat_eqb (counter_of db.counters) (latest_sequence db.events)))
      (some (latest_sequence db.events)) "sequence_counter_mismatch"

-- `_column_faults`
unfoldable pub column_faults : StoredEvent → List IntegrityFault
unfolding check_names
column_faults row =
    fault_if (is_refused (check_names row)) (some row.sequence) "event_name_invalid"
    ++ fault_if (ltb row.stream_version 1 || ltb row.event_version 1) (some row.sequence)
        "event_version_invalid"

-- `isinstance(value, dict)` of a decoded column
abbrev pub is_object : Result Json → Bool
is_object (ok (object fs)) = true
is_object j = false

-- `stream_versions.get(stream_id, 0)`
abbrev pub version_in : String → List (String × ℕ) → ℕ
version_in stream_id [] = 0
version_in stream_id ((s, v) ∷ versions) =
    if s == stream_id then v else version_in stream_id versions

abbrev pub report : ℕ → List IntegrityFault → IntegrityReport
report checked faults = record {
  is_sound = nat_eqb (length faults) 0;
  checked_events = checked;
  faults = faults;
}

module _ (sha256_hex : String → String) (loads : String → Result Json) where
  -- The code of the first problem of the two JSON columns.
  unfoldable pub json_code : StoredEvent → Option String
  unfolding json_size_problem check_json
  json_code row =
      if json_size_problem row.payload_json || json_size_problem row.metadata_json
      then some "payload_not_json"
      else if is_refused (loads row.payload_json) || is_refused (loads row.metadata_json)
      then some "payload_not_json"
      else if not (is_object (loads row.payload_json)) || not (is_object (loads row.metadata_json))
      then some "payload_not_object"
      else if is_refused (check_json sha256_hex loads row.payload_json "payload")
          || is_refused (check_json sha256_hex loads row.metadata_json "metadata")
      then some "payload_not_json"
      else none

  -- `_payload_faults`
  unfoldable pub payload_faults : StoredEvent → List IntegrityFault
  unfolding json_code
  payload_faults row =
      if not (sha256_hex row.payload_json == row.payload_sha256)
      then fault (some row.sequence) "payload_digest_mismatch" ∷ []
      else elim (json_code row) [ none ↦ [] | some code ↦ fault (some row.sequence) code ∷ [] ]

  -- The walk over the rows, for the sequence expected next and the last version of each stream.
  unfoldable pub walk_faults : ℕ → List (String × ℕ) → List StoredEvent → List IntegrityFault
  unfolding column_faults payload_faults
  walk_faults expected versions [] = []
  walk_faults expected versions (row ∷ rows) =
      column_faults row
      ++ (payload_faults row ++ (elim (ltb row.sequence 1) [
        | true ↦ fault (some row.sequence) "sequence_gap" ∷ walk_faults expected versions rows
        | false ↦
            fault_if (not (nat_eqb row.sequence expected)) (some row.sequence) "sequence_gap"
            ++ (elim (ltb row.stream_version 1) [
              | true ↦ walk_faults (suc row.sequence) versions rows
              | false ↦
                  fault_if
                    (not (nat_eqb row.stream_version (suc (version_in row.stream_id versions))))
                    (some row.sequence) "stream_version_gap"
                  ++ walk_faults (suc row.sequence) ((row.stream_id, row.stream_version) ∷ versions)
                      rows
            ])
      ]))

  unfoldable pub verify_history : List IntegrityFault → Bool → Database → IntegrityReport
  unfolding header_faults migration_faults counter_faults walk_faults
  verify_history schema_faults present db =
      if present
      then report (length db.events) (
          schema_faults
          ++ header_faults present db
          ++ migration_faults db
          ++ counter_faults db
          ++ walk_faults 1 [] db.events)
      else report 0 (schema_faults ++ header_faults present db)
