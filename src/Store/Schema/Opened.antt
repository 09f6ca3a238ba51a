-- ===== src/Store/Schema/Opened.antt =====
-- store/sqlite.py: the databases that the opening of a store accepts.
use comply_roll.Common.{ℕ, ◌≡◌, refl, ◌∙◌, true, String, List, length, arith, Option}
use comply_roll.Errors.{ok, refuse_if, >>=-eq-ok}
use comply_roll.Store.Rows.{
  StoredEvent, Database, rows_where, stream_rows, counter_of, latest_sequence, highest_of,
}
use comply_roll.Store.History.{
  require_sequence_counter_intact, require_sequences_contiguous, is_contiguous, counter_problem,
}
use comply_roll.Store.Append.{migrations_from}
use comply_roll.Store.Numbered.{
  IsNumbered, IsAscending, is_contiguous-numbered, highest_of-numbered,
}
use comply_roll.Store.Intact.{IsIntact, sequence_of}
use comply_roll.Store.Schema.{created, verify_existing_schema, require_expected_schema}

-- A new store is intact.
pub created-IsIntact : (applied_at : ℕ) → IsIntact (created applied_at)
unfolding migrations_from stream_rows rows_where
created-IsIntact applied_at = record {
  sequences = tt;
  versions = λ stream_id. tt;
  identifiers = tt;
  one_counter = omega arith;
  counter = refl;
  marked = refl;
  supported = (omega arith, omega arith);
  records = (refl, tt);
  recorded = refl;
  checkpoints = tt;
}

sequences-pass :
    (db : Database) {u : Unit {0}}
    → require_sequences_contiguous db ≡ ok u
    → is_contiguous sequence_of db.events ≡ true
unfolding require_sequences_contiguous
sequences-pass db h = ground (arith, h)

counter-counts :
    (db : Database) {u : Unit {0}}
    → require_sequence_counter_intact db ≡ ok u
    → counter_of db.counters ≡ latest_sequence db.events
unfolding require_sequence_counter_intact
counter-counts db h =
    let (u, single, equal) = >>=-eq-ok (refuse_if (counter_problem db.counters) _) _ h in
    ground (arith, equal)

latest :
    (rows : List StoredEvent)
    → highest_of sequence_of rows ≡ length rows
    → latest_sequence rows ≡ length rows
unfolding latest_sequence
latest rows h = h

-- An existing database that the opening accepts holds every sequence from 1 to the last, and its
-- counter is the last, where its rows are in the order of a key above zero: no event has been
-- deleted from the log.
pub verify_existing_schema-eq-ok :
    (schema_problem : Option String) (db : Database) {u : Unit {0}}
    → IsAscending sequence_of 0 db.events
    → verify_existing_schema schema_problem db ≡ ok u
    → IsNumbered sequence_of 0 db.events × (counter_of db.counters ≡ length db.events)
unfolding verify_existing_schema
verify_existing_schema-eq-ok schema_problem db ascending h =
    let (u, marked, h1) = >>=-eq-ok (require_expected_schema schema_problem db) _ h in
    let (v, counted, h2) = >>=-eq-ok (require_sequence_counter_intact db) _ h1 in
    let (w, contiguous, h3) = >>=-eq-ok (require_sequences_contiguous db) _ h2 in
    let numbered : IsNumbered sequence_of 0 db.events =
      is_contiguous-numbered sequence_of db.events ascending (sequences-pass db contiguous) in
    (
      numbered,
      counter-counts db counted
          ∙ latest db.events (highest_of-numbered sequence_of db.events numbered),
    )
