-- ===== src/Store/Append/Contract.antt =====
-- store/sqlite.py: what a call of `append` does.
use comply_roll.Common.{
  ℕ, ◌≤◌, ◌≡◌, refl, ap, sym, subst, ◌∙◌, String, List, ◌++◌, length, arith, ltb, ℤ, pos, negsuc,
}
use comply_roll.Errors.{Result, ok, err, >>=-eq-ok, ◌>>◌}
use comply_roll.Instant.{Datetime, to_utc}
use comply_roll.Store.Rows.{
  StoredEvent, Database, stream_rows, latest_sequence, current_stream_version,
}
use comply_roll.Store.Arguments.{
  require_name, require_nonnegative_integer, require_supported_schema, supported_schema_version,
}
use comply_roll.Store.Session.{
  Outcome, Store, within, write_transaction, and_then-eq-ok, and_then_check-eq-ok,
  kept_or_rolled_back, in_store, require_open,
}
use comply_roll.Store.History.{
  require_sequence_counter_intact, require_history_contiguous, require_version,
}
use comply_roll.Store.Append.{
  NewEvent, require_appendable, append, append_checked, append_arguments, append_work, mark_schema,
  require_batch,
}
use comply_roll.Store.Intact.{IsIntact, latest_sequence-intact, current_stream_version-intact}
use comply_roll.Store.Append.Marked.{mark_schema-eq-ok}
use comply_roll.Store.Append.Rowed.Loop.{AreWritten, append_events-eq-ok}

pub arguments-eq-ok :
    (store : Store) (stream_id : String) (pending : List NewEvent) (expected_version : ℤ)
    (requires_schema : ℤ) {expected required : ℕ}
    → append_arguments store stream_id pending expected_version requires_schema
      ≡ ok (expected, required)
    → (expected_version ≡ pos expected)
      × (required ≤ supported_schema_version)
      × (require_batch pending ≡ ok tt)
unfolding append_arguments require_nonnegative_integer require_supported_schema
arguments-eq-ok store stream_id pending (negsuc n) requires_schema {expected} {required} h =
    let (u, named, h1) = >>=-eq-ok (require_name stream_id "stream_id") _ h in cc
arguments-eq-ok store stream_id pending (pos n) requires_schema {expected} {required} h =
    let (u, named, h1) = >>=-eq-ok (require_name stream_id "stream_id") _ h in
    let (schema, supported, h2) = >>=-eq-ok (require_supported_schema requires_schema) _ h1 in
    let (v, batch, h3) = >>=-eq-ok (require_batch pending) _ h2 in
    let (w, opened, h4) = >>=-eq-ok (require_open store) _ h3 in
    (cc, within_bounds requires_schema (supported ∙ cc), batch ∙ cc)
  where
    within_bounds :
        (value : ℤ)
        → require_supported_schema value ≡ ok required
        → required ≤ supported_schema_version
    within_bounds (pos n) h = ground arith
    within_bounds (negsuc n) h = cc

require_version-eq-ok :
    (stream_id : String) (expected : ℕ) (db : Database) {u : Unit {0}}
    → require_version stream_id expected db ≡ ok u
    → current_stream_version stream_id db.events ≡ expected
unfolding require_version
require_version-eq-ok stream_id expected db h = ground arith

pub require_appendable-eq-ok :
    (stream_id : String) (expected : ℕ) (db : Database) {u : Unit {0}}
    → require_appendable stream_id expected db ≡ ok u
    → current_stream_version stream_id db.events ≡ expected
unfolding require_appendable
require_appendable-eq-ok stream_id expected db h =
    let (u, history, versioned) =
      >>=-eq-ok (require_sequence_counter_intact db >> require_history_contiguous stream_id db) _
        h in
    require_version-eq-ok stream_id expected db versioned

-- A call that returns has returned from its transaction.
pub within-eq-ok :
    {A : Type 0} (store : Store) (work : Database → Outcome A) {made : A} {after : Store}
    → within store work ≡ (ok made, after)
    → work store.database ≡ (ok made, after.database)
unfolding within write_transaction
within-eq-ok {A} store work {made} {after} returns = split (work store.database) returns
  where
    split :
        (left : Outcome A)
        → in_store store (kept_or_rolled_back (ltb 0 store.transaction_depth) store.database left)
          ≡ (ok made, after)
        → left ≡ (ok made, after.database)
    split (err raised, db) h = cc
    split (ok given, db) h =
        let same : given ≡ made = cc in
        let left : db ≡ after.database = ap (λ (p : Result A × Store). p.1.database) h in cc

module _ (sha256_hex : String → String) where
  append_work-eq-ok :
      (marked_at clock : Datetime) (stream_id : String) (pending : List NewEvent)
      (expected required : ℕ) (db : Database) {records : List StoredEvent} {after : Database}
      → IsIntact db
      → required ≤ supported_schema_version
      → append_work sha256_hex marked_at clock stream_id pending expected required db
        ≡ (ok records, after)
      → (at : ℕ) × (to_utc clock ≡ ok at)
        × (current_stream_version stream_id db.events ≡ expected)
        × (after.events ≡ db.events ++ records)
        × AreWritten sha256_hex stream_id at (length db.events) expected pending records
        × IsIntact after
        × (after.checkpoints ≡ db.checkpoints)
  unfolding append_work
  append_work-eq-ok marked_at clock stream_id pending expected required db {records} {after} intact
        few returns =
      let (u, checked, h1) =
        and_then_check-eq-ok (require_appendable stream_id expected db) db _ returns in
      let (v, marked, schema, h2) = and_then-eq-ok (mark_schema marked_at required db) _ h1 in
      let (at, read, h3) = and_then_check-eq-ok (to_utc clock) marked _ h2 in
      let (whole, events, checkpoints) =
        mark_schema-eq-ok marked_at required db intact few schema in
      let current : current_stream_version stream_id db.events ≡ expected =
        require_appendable-eq-ok stream_id expected db checked in
      let here : length (stream_rows stream_id marked.events) ≡ expected =
        ap (λ rs. length (stream_rows stream_id rs)) events
        ∙ sym (current_stream_version-intact stream_id db intact)
        ∙ current in
      let (grown, written, kept, unmoved) =
        append_events-eq-ok sha256_hex stream_id at expected pending marked whole here h3 in
      (
        at,
        read,
        current,
        grown ∙ ap (λ rs. rs ++ records) events,
        subst (λ n. AreWritten sha256_hex stream_id at n expected pending records)
            (ap length events) written,
        kept,
        unmoved ∙ checkpoints,
      )

  -- A call that returns passed the checks of its arguments, and its work is committed.
  append_checked-eq-ok :
      (marked_at clock : Datetime) (store : Store) (stream_id : String) (pending : List NewEvent)
      (arguments : Result (ℕ × ℕ)) {records : List StoredEvent} {after : Store}
      → append_checked sha256_hex marked_at clock store stream_id pending arguments
        ≡ (ok records, after)
      → (expected : ℕ) × (required : ℕ) × (arguments ≡ ok (expected, required))
        × (append_work sha256_hex marked_at clock stream_id pending expected required store.database
            ≡ (ok records, after.database))
  unfolding append_checked
  append_checked-eq-ok marked_at clock store stream_id pending (err raised) returns = cc
  append_checked-eq-ok marked_at clock store stream_id pending (ok (expected, required)) returns = (
    expected,
    required,
    refl,
    within-eq-ok store (append_work sha256_hex marked_at clock stream_id pending expected required)
        returns,
  )

  -- On an intact database an append that returns was given the version that the stream had. It
  -- added exactly its records at the end of the log, one for each event and in that order, under
  -- the sequences that follow the last one, the versions that follow that version and the instant
  -- at which it read the clock; the database it leaves is intact, with the same checkpoints.
  pub append-eq-ok :
      (marked_at clock : Datetime) (store : Store) (stream_id : String) (pending : List NewEvent)
      (expected_version requires_schema : ℤ) {records : List StoredEvent} {after : Store}
      → IsIntact store.database
      → append sha256_hex marked_at clock store stream_id pending expected_version requires_schema
        ≡ (ok records, after)
      → (at : ℕ) × (to_utc clock ≡ ok at)
        × (expected_version ≡ pos (current_stream_version stream_id store.database.events))
        × (after.database.events ≡ store.database.events ++ records)
        × AreWritten sha256_hex stream_id at
            (latest_sequence store.database.events)
            (current_stream_version stream_id store.database.events)
            pending
            records
        × IsIntact after.database
        × (after.database.checkpoints ≡ store.database.checkpoints)
  unfolding append
  append-eq-ok marked_at clock store stream_id pending version schema {records} intact returns =
      let (expected, required, arguments, worked) =
        append_checked-eq-ok marked_at clock store stream_id pending
          (append_arguments store stream_id pending version schema) returns in
      let (given, few, batch) = arguments-eq-ok store stream_id pending version schema arguments in
      let (at, read, current, grown, written, whole, unmoved) =
        append_work-eq-ok marked_at clock stream_id pending expected required store.database intact
          few worked in
      (
        at,
        read,
        given ∙ ap pos (sym current),
        grown,
        subst
            (λ n.
              AreWritten sha256_hex stream_id at n
                (current_stream_version stream_id store.database.events) pending records)
            (sym (latest_sequence-intact store.database intact))
            (subst
              (λ v.
                AreWritten sha256_hex stream_id at (length store.database.events) v pending records)
              (sym current) written),
        whole,
        unmoved,
      )
