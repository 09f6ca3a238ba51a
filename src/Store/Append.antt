-- ===== src/Store/Append.antt =====
-- store/sqlite.py: `NewEvent` and `append`. The clock is read where the source reads it: once when
-- the append marks the schema, then once for the events.
pub mod Rowed
pub mod Marked
pub mod Contract
pub mod Refused
pub mod Succeeds
use comply_roll.Common.{
  ℕ, zero, suc, ◌+◌, ◌-◌, Bool, true, false, ◌&&◌, ◌||◌, not, ◌==◌, String, List, [], ◌∷◌, ◌++◌,
  map, length, any, Option, none, some, if◌then◌else◌, nat_eqb, ltb, leb, ℤ,
}
use comply_roll.Errors.{
  Result, ok, err, refuse_if, ◌>>◌, ◌>>=◌, value_error, event_conflict, event_integrity,
  unsupported_schema, overflow_error,
}
use comply_roll.Instant.{Datetime, to_utc}
use comply_roll.Models.Text.{has_duplicates}
use comply_roll.Store.Rows.{
  StoredEvent, Migration, Database, current_stream_version, highest_of, stream_rows, is_taken,
  next_sequence, with_event, rows_where, least_of,
}
use comply_roll.Store.Arguments.{
  require_name, require_nonnegative_integer, require_positive_integer, require_supported_schema,
  schema_version, supported_schema_version,
}
use comply_roll.Store.Json.{Json, canonical_json_object}
use comply_roll.Store.History.{
  require_sequence_counter_intact, require_history_contiguous, require_version,
}
use comply_roll.Store.Session.{
  Outcome, and_then, checking, Store, require_open, within, write_transaction,
}

pub record NewEvent : Type 0 where
  pub event_type : String
  pub occurred_at : Datetime
  pub payload : Json
  pub metadata : Json
  pub event_id : String
  pub event_version : ℕ

-- `NewEvent.__post_init__`
unfoldable pub new_event : String → Datetime → Json → Json → String → ℤ → Result NewEvent
unfolding require_name require_positive_integer to_utc
new_event event_type occurred_at payload metadata event_id event_version = do
  _ ← require_name event_id "event_id"
  _ ← require_name event_type "event_type"
  version ← require_positive_integer event_version "event_version"
  _ ← to_utc occurred_at
  ok (record {
    event_type = event_type;
    occurred_at = occurred_at;
    payload = payload;
    metadata = metadata;
    event_id = event_id;
    event_version = version;
  })

abbrev pub application_id : ℕ
application_id = 1129467724

abbrev pub max_events_per_append : ℕ
max_events_per_append = 1000

-- `_MIGRATION_DESCRIPTIONS`
unfoldable pub migration_description : ℕ → String
migration_description version =
    if nat_eqb version 1
    then "append-only event history and projection checkpoints"
    else if nat_eqb version 2
    then "failure streams, ADR 0014"
    else if nat_eqb version 3
    then "held failures, ADR 0014 amendment 2026-10-13"
    else "coverage gaps, ADR 0015"

-- The records for `range(version, version + count)`.
unfoldable pub migrations_from : ℕ → ℕ → ℕ → List Migration
unfolding migration_description
migrations_from zero version applied_at = []
migrations_from (suc count) version applied_at =
    record {
      version = version;
      description = migration_description version;
      applied_at = applied_at;
    }
    ∷ migrations_from count (suc version) applied_at

-- A record above the marker.
unfoldable pub require_no_record_ahead : Database → Result (Unit {0})
require_no_record_ahead db =
    refuse_if (any (λ (m : Migration). ltb db.user_version m.version) db.migrations)
      (unsupported_schema "unexpected migration record")

unfoldable pub require_own_schema : Database → Result (Unit {0})
require_own_schema db =
    refuse_if
      (not (leb schema_version db.user_version && leb db.user_version supported_schema_version))
      (unsupported_schema "schema out of range")
    >> refuse_if (not (nat_eqb db.application_id application_id))
        (unsupported_schema "not marked as a ComplyRoll store")

-- `_mark_schema`, with the clock that it reads when it writes
unfoldable pub mark_schema : Datetime → ℕ → Database → Outcome (Unit {0})
unfolding require_own_schema require_no_record_ahead migrations_from to_utc
mark_schema clock required db =
    and_then (require_own_schema db, db)
      λ checked db.
        if leb required db.user_version
        then (ok tt, db)
        else and_then (require_no_record_ahead db, db)
            λ none_ahead db.
              and_then (to_utc clock, db)
                λ applied_at db. (
                  ok tt,
                  record db {
                    migrations =
                        db.migrations
                        ++ migrations_from (required - db.user_version) (suc db.user_version)
                            applied_at;
                    user_version = required;
                  },
                )

-- `INSERT INTO events`, and `_insert_refusal` where a UNIQUE key is taken. The CHECK constraints
-- hold of every row that `append` writes.
unfoldable pub insert_event : StoredEvent → Database → Outcome StoredEvent
unfolding is_taken next_sequence with_event
insert_event row db =
    if is_taken row.event_id row.stream_id row.stream_version db.events
    then (err (event_conflict row.event_id), db)
    else let stored : StoredEvent = record row { sequence = next_sequence db } in
      (ok stored, with_event stored db)

-- The checks of the batch, before the transaction.
unfoldable pub require_batch : List NewEvent → Result (Unit {0})
require_batch pending =
    refuse_if (nat_eqb (length pending) 0) (value_error "events")
    >> refuse_if (ltb max_events_per_append (length pending)) (value_error "events")
    >> refuse_if (has_duplicates (map (λ (event : NewEvent). event.event_id) pending))
        (event_conflict "duplicate event identifiers")

-- The checks of the arguments, which return the version and the schema as numbers.
unfoldable pub append_arguments : Store → String → List NewEvent → ℤ → ℤ → Result (ℕ × ℕ)
unfolding require_batch require_open require_name require_supported_schema
append_arguments store stream_id pending expected_version requires_schema = do
  _ ← require_name stream_id "stream_id"
  expected ← require_nonnegative_integer expected_version "expected_version"
  required ← require_supported_schema requires_schema
  _ ← require_batch pending
  _ ← require_open store
  ok (expected, required)

-- The checks of an append under the write lock.
unfoldable pub require_appendable : String → ℕ → Database → Result (Unit {0})
unfolding require_sequence_counter_intact require_history_contiguous require_version
require_appendable stream_id expected_version db =
    require_sequence_counter_intact db
    >> require_history_contiguous stream_id db
    >> require_version stream_id expected_version db

-- The greatest integer that SQLite holds; past it the binding of a parameter overflows.
abbrev pub max_sqlite_integer : ℕ
max_sqlite_integer = 9223372036854775807

module _ (sha256_hex : String → String) where
  abbrev pub row_of : String → ℕ → ℕ → NewEvent → String → String → ℕ → StoredEvent
  row_of stream_id stream_version recorded_at event payload_json metadata_json occurred_at =
      record {
        sequence = 0;
        event_id = event.event_id;
        stream_id = stream_id;
        stream_version = stream_version;
        event_type = event.event_type;
        event_version = event.event_version;
        occurred_at = occurred_at;
        recorded_at = recorded_at;
        payload_json = payload_json;
        metadata_json = metadata_json;
        payload_sha256 = sha256_hex payload_json;
      }

  -- The columns of an event, its key left to the table.
  unfoldable pub event_row : String → ℕ → ℕ → NewEvent → Result StoredEvent
  unfolding canonical_json_object to_utc
  event_row stream_id stream_version recorded_at event = do
    payload_json ← canonical_json_object event.payload "payload"
    metadata_json ← canonical_json_object event.metadata "metadata"
    occurred_at ← to_utc event.occurred_at
    _ ← refuse_if (ltb max_sqlite_integer event.event_version) overflow_error
    ok (row_of stream_id stream_version recorded_at event payload_json metadata_json occurred_at)

  -- The loop of `append`, for the version that the stream has reached.
  unfoldable pub append_events :
      String → ℕ → ℕ → List NewEvent → Database → Outcome (List StoredEvent)
  unfolding event_row insert_event
  append_events stream_id recorded_at reached [] db = (ok [], db)
  append_events stream_id recorded_at reached (event ∷ events) db =
      and_then (event_row stream_id (suc reached) recorded_at event, db)
        λ row db. and_then (insert_event row db) λ stored db.
          and_then (append_events stream_id recorded_at (suc reached) events db)
            λ appended db. (ok (stored ∷ appended), db)

  -- What `append` does inside its transaction.
  unfoldable pub append_work :
      Datetime → Datetime → String → List NewEvent → ℕ → ℕ → Database → Outcome (List StoredEvent)
  unfolding require_appendable mark_schema append_events to_utc
  append_work marked_at clock stream_id pending expected_version requires_schema db =
      and_then (require_appendable stream_id expected_version db, db)
        λ checked db. and_then (mark_schema marked_at requires_schema db) λ marked db.
          and_then (to_utc clock, db)
            λ recorded_at db. append_events stream_id recorded_at expected_version pending db

  -- The transaction, once the arguments are checked.
  unfoldable pub append_checked :
      Datetime
      → Datetime
      → Store
      → String
      → List NewEvent
      → Result (ℕ × ℕ)
      → Result (List StoredEvent) × Store
  unfolding append_work within
  append_checked marked_at clock store stream_id pending (err raised) = (err raised, store)
  append_checked marked_at clock store stream_id pending (ok (expected, required)) =
      within store (append_work marked_at clock stream_id pending expected required)

  unfoldable pub append :
      Datetime
      → Datetime
      → Store
      → String
      → List NewEvent
      → ℤ
      → ℤ
      → Result (List StoredEvent) × Store
  unfolding append_arguments append_checked
  append marked_at clock store stream_id pending expected_version requires_schema =
      append_checked marked_at clock store stream_id pending
        (append_arguments store stream_id pending expected_version requires_schema)
