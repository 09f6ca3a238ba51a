-- ===== src/Store/Schema.antt =====
-- store/sqlite.py: the opening of a database: `_initialize_schema_unchecked` and
-- `_verify_existing_schema`. Whether a file holds schema objects at all, and the first fault of
-- their definitions, are read from `sqlite_master`, which is given to the model as a value.
pub mod Opened
use comply_roll.Common.{
  ℕ, zero, suc, ◌-◌, length, Bool, true, false, ◌&&◌, ◌||◌, not, ◌==◌, String, List, [], ◌∷◌, any,
  Option, none, some, is_some, if◌then◌else◌, nat_eqb, ltb, leb,
}
use comply_roll.Errors.{
  Result, ok, err, refuse_if, ◌>>◌, ◌>>=◌, unsupported_schema, event_integrity,
}
use comply_roll.Instant.{Datetime, to_utc}
use comply_roll.Store.Rows.{
  StoredEvent, Migration, Database, stream_rows, rows_where, highest_of, least_of,
}
use comply_roll.Store.Arguments.{schema_version, supported_schema_version}
use comply_roll.Store.History.{
  require_sequence_counter_intact, require_sequences_contiguous, is_contiguous,
  stream_version_gap_error,
}
use comply_roll.Store.Session.{Outcome, and_then, write_transaction}
use comply_roll.Store.Append.{application_id, require_own_schema, migrations_from}

-- `_require_all_streams_contiguous`: whether the stream of some row has a gap
unfoldable pub gapped_stream : List StoredEvent → List StoredEvent → Bool
unfolding stream_rows highest_of least_of
gapped_stream rows [] = false
gapped_stream rows (r ∷ rest) =
    not (is_contiguous (λ (s : StoredEvent). s.stream_version) (stream_rows r.stream_id rows))
    || gapped_stream rows rest

unfoldable pub require_all_streams_contiguous : Database → Result (Unit {0})
unfolding gapped_stream
require_all_streams_contiguous db =
    refuse_if (gapped_stream db.events db.events) (event_integrity "stream is missing a version")

-- The records of `range(version, version + count)` that the table lacks.
unfoldable pub missing_from : ℕ → ℕ → List Migration → List ℕ
missing_from zero version rows = []
missing_from (suc count) version rows =
    let rest = missing_from count (suc version) rows in
    if any (λ (m : Migration). nat_eqb m.version version) rows then rest else version ∷ rest

-- `_missing_migrations`
unfoldable pub missing_migrations : Database → List ℕ
unfolding missing_from
missing_migrations db =
    let newest : ℕ =
      if leb db.user_version supported_schema_version
      then (if leb schema_version db.user_version then db.user_version else schema_version)
      else supported_schema_version in
    missing_from newest schema_version db.migrations

-- The marks, the schema objects and the migration records; `schema_problem` names the objects
-- that are missing or not as the store made them.
unfoldable pub require_expected_schema : Option String → Database → Result (Unit {0})
unfolding missing_migrations
require_expected_schema schema_problem db =
    refuse_if (not (nat_eqb db.application_id application_id))
      (unsupported_schema "not marked as a ComplyRoll store")
    >> refuse_if
        (not (leb schema_version db.user_version && leb db.user_version supported_schema_version))
        (unsupported_schema "schema out of range")
    >> refuse_if (is_some schema_problem) (unsupported_schema "schema objects")
    >> refuse_if (not (nat_eqb (length (missing_migrations db)) 0))
        (unsupported_schema "missing migration record")

unfoldable pub verify_existing_schema : Option String → Database → Result (Unit {0})
unfolding require_expected_schema require_sequence_counter_intact require_sequences_contiguous
    require_all_streams_contiguous
verify_existing_schema schema_problem db =
    require_expected_schema schema_problem db
    >> (require_sequence_counter_intact db
        >> (require_sequences_contiguous db >> require_all_streams_contiguous db))

-- The tables of a new store: `_SCHEMA_V1` and its migration record.
abbrev pub created : ℕ → Database
created applied_at = record {
  application_id = application_id;
  user_version = schema_version;
  migrations = migrations_from 1 schema_version applied_at;
  events = [];
  counters = [];
  checkpoints = [];
}

-- `_initialize_schema_unchecked`, where no other connection opens the file meanwhile; `present`
-- says whether the file holds schema objects.
unfoldable pub initialize_schema : Datetime → Bool → Option String → Database → Outcome (Unit {0})
unfolding verify_existing_schema to_utc migrations_from
initialize_schema clock present schema_problem db =
    and_then
      (
        refuse_if (not (nat_eqb db.application_id 0 || nat_eqb db.application_id application_id))
              (unsupported_schema "database belongs to another application")
            >> refuse_if (ltb supported_schema_version db.user_version)
                (unsupported_schema "schema is newer"),
        db,
      )
      λ checked db. elim (nat_eqb db.user_version 0) [
        | false ↦ (verify_existing_schema schema_problem db, db)
        | true ↦
            and_then (refuse_if present (unsupported_schema "not an empty ComplyRoll store"), db)
              λ free db.
                write_transaction false db
                  λ db. and_then (to_utc clock, db) λ applied_at db. (ok tt, created applied_at)
      ]
