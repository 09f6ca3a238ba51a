-- ===== src/Store/Append/Succeeds.antt =====
-- store/sqlite.py: when an append goes through.
use comply_roll.Common.{
  ℕ, suc, ◌+◌, ◌≤◌, ◌≡◌, refl, ap, sym, subst, ◌∙◌, Bool, true, false, ◌&&◌, ◌==◌, String, List, [],
  ◌∷◌, ◌++◌, length, any, map, All, All-append, arith, ltb, nat_eqb, Bool-cases, inl, inr, ℤ,
  eq_iff, or_false,
}
use comply_roll.Errors.{ok, >>=-eq-ok, ◌>>◌, refuse_if, refuse_if-eq-ok, value_error}
use comply_roll.Instant.{Datetime, to_utc}
use comply_roll.Models.Text.{has_duplicates, contains}
use comply_roll.Store.Rows.{
  StoredEvent, Database, stream_rows, rows_where, in_stream, is_taken, current_stream_version,
  with_event, next_sequence,
}
use comply_roll.Store.Arguments.{supported_schema_version}
use comply_roll.Store.Session.{Store, within, write_transaction}
use comply_roll.Store.History.{require_version}
use comply_roll.Store.Json.{canonical_json_object}
use comply_roll.Store.Numbered.{IsNumbered}
use comply_roll.Store.Append.{
  NewEvent, require_appendable, append, append_checked, append_arguments, append_work,
  append_events, event_row, row_of, insert_event, require_batch, max_events_per_append,
  max_sqlite_integer,
}
use comply_roll.Store.Intact.{
  IsIntact, Unused, version_of, current_stream_version-intact, counter-passes, history-passes,
}
use comply_roll.Store.Append.Marked.{mark_schema-eq-ok, mark_schema-succeeds}
use comply_roll.Store.Append.Rowed.Loop.{row_lands}
use comply_roll.Store.Append.Contract.{arguments-eq-ok}

-- The columns of the event can be written.
abbrev pub IsStorable : NewEvent → Type 0
IsStorable event =
    ((payload : String) × (canonical_json_object event.payload "payload" ≡ ok payload))
    × ((metadata : String) × (canonical_json_object event.metadata "metadata" ≡ ok metadata))
    × ((at : ℕ) × (to_utc event.occurred_at ≡ ok at))
    × (event.event_version ≤ max_sqlite_integer)

abbrev pub id_of : NewEvent → String
id_of event = event.event_id

-- No event has an identifier of the log.
abbrev pub AreFresh : List StoredEvent → List NewEvent → Type 0
AreFresh rows events = All (λ (e : NewEvent). Unused e.event_id rows) events

abbrev no_version : String → ℕ → List StoredEvent → Bool
no_version stream_id version rows =
    any (λ (r : StoredEvent). r.stream_id == stream_id && nat_eqb r.stream_version version) rows

-- The versions that a numbered stream does not reach are free.
past_versions :
    (stream_id : String) (start version : ℕ) (rows : List StoredEvent)
    → IsNumbered version_of start (stream_rows stream_id rows)
    → start + length (stream_rows stream_id rows) ≤ version
    → no_version stream_id (suc version) rows ≡ false
unfolding stream_rows rows_where
past_versions stream_id start version [] numbered past = refl
past_versions stream_id start version (r ∷ rows) numbered past =
    elim (Bool-cases (in_stream stream_id r)) [
      | inl e ↦
          let here = rw e at numbered in
          let far : suc start + length (stream_rows stream_id rows) ≤ version =
            let p = rw e at past in omega (arith, p) in
          let rest = past_versions stream_id (suc start) version rows here.1 far in
          ground (arith, here.0, rest, far)
      | inr e ↦
          let here = rw e at numbered in
          let p = rw e at past in
          ground (arith, e, past_versions stream_id start version rows here p)
    ]

is_taken-split :
    (event_id stream_id : String) (version : ℕ) (rows : List StoredEvent)
    → Unused event_id rows
    → no_version stream_id version rows ≡ false
    → is_taken event_id stream_id version rows ≡ false
unfolding is_taken
is_taken-split event_id stream_id version [] free past = refl
is_taken-split event_id stream_id version (r ∷ rows) free past = ground (
  arith,
  free.0,
  past,
  is_taken-split event_id stream_id version rows free.1 (ground (arith, past)),
)

AreFresh-one :
    (r : StoredEvent) (rows : List StoredEvent) (events : List NewEvent)
    → AreFresh rows events
    → contains r.event_id (map id_of events) ≡ false
    → AreFresh (rows ++ r ∷ []) events
AreFresh-one r rows [] fresh apart = tt
AreFresh-one r rows (e ∷ events) fresh apart = (
  All-append _ rows (r ∷ []) fresh.0
      (ground (arith, apart, eq_iff r.event_id e.event_id, eq_iff e.event_id r.event_id), tt),
  AreFresh-one r rows events fresh.1 (ground (arith, apart)),
)

insert_event-free :
    (row : StoredEvent) (db : Database)
    → Unused row.event_id db.events
    → no_version row.stream_id row.stream_version db.events ≡ false
    → insert_event row db ≡ (
      ok (record row { sequence = next_sequence db }),
      with_event (record row { sequence = next_sequence db }) db,
    )
unfolding insert_event
insert_event-free row db free past =
    rw (is_taken-split row.event_id row.stream_id row.stream_version db.events free past)

require_batch-apart :
    (pending : List NewEvent)
    → require_batch pending ≡ ok tt
    → has_duplicates (map id_of pending) ≡ false
unfolding require_batch
require_batch-apart pending h =
    let (u, sized, named) =
      >>=-eq-ok
        (refuse_if (nat_eqb (length pending) 0) (value_error "events")
          >> refuse_if (ltb max_events_per_append (length pending)) (value_error "events"))
        _ h in
    refuse_if-eq-ok (has_duplicates (map id_of pending)) _ named

appendable :
    (stream_id : String) (expected : ℕ) (db : Database)
    → IsIntact db
    → current_stream_version stream_id db.events ≡ expected
    → require_appendable stream_id expected db ≡ ok tt
unfolding require_appendable require_version
appendable stream_id expected db intact current =
    let agrees : nat_eqb (current_stream_version stream_id db.events) expected ≡ true =
      ground (arith, current) in
    rw (counter-passes db intact, history-passes stream_id db intact, agrees)

not_past : (n top : ℕ) → n ≤ top → ltb top n ≡ false
not_past n top h = ground arith

module _ (sha256_hex : String → String) where
  event_row-succeeds :
      (stream_id : String) (version at : ℕ) (event : NewEvent)
      → IsStorable event
      → (row : StoredEvent) × (event_row sha256_hex stream_id version at event ≡ ok row)
        × (row.event_id ≡ event.event_id)
        × (row.stream_id ≡ stream_id)
        × (row.stream_version ≡ version)
  unfolding event_row
  event_row-succeeds stream_id version at event storable =
      let ((payload, p), (metadata, m), (occurred_at, o), bounded) = storable in
      let fits : ltb max_sqlite_integer event.event_version ≡ false =
        not_past event.event_version max_sqlite_integer bounded in
      (
        row_of sha256_hex stream_id version at event payload metadata occurred_at,
        rw (p, m, o, fits),
        refl,
        refl,
        refl,
      )

  append_events-succeeds :
      (stream_id : String) (at reached : ℕ) (events : List NewEvent) (db : Database)
      → IsIntact db
      → length (stream_rows stream_id db.events) ≡ reached
      → All IsStorable events
      → AreFresh db.events events
      → has_duplicates (map id_of events) ≡ false
      → (records : List StoredEvent) × (after : Database) × (append_events sha256_hex stream_id at
            reached events db
          ≡ (ok records, after))
  unfolding append_events
  append_events-succeeds stream_id at reached [] db intact here storable fresh apart =
      ([], db, refl)
  append_events-succeeds stream_id at reached (e ∷ events) db intact here storable fresh apart =
      let (row, made, id, own, next) = event_row-succeeds stream_id (suc reached) at e storable.0 in
      let stored : StoredEvent = record row { sequence = next_sequence db } in
      let (apart_here, apart_rest) =
        or_false (contains e.event_id (map id_of events)) (has_duplicates (map id_of events))
          apart in
      let free : Unused row.event_id db.events = subst (λ n. Unused n db.events) (sym id) fresh.0 in
      let inserted : insert_event row db ≡ (ok stored, with_event stored db) =
        insert_event-free row db free (
          subst (λ s. no_version s row.stream_version db.events ≡ false) (sym own)
            (subst (λ n. no_version stream_id n db.events ≡ false) (sym next)
              (past_versions stream_id 0 reached db.events (intact.versions stream_id)
                (omega (arith, here))))) in
      let (as_row, owned, grown, whole, reached_next, kept) =
        row_lands sha256_hex stream_id at reached e db intact here made inserted in
      let (records, after, ran) =
        append_events-succeeds stream_id at (suc reached) events (with_event stored db) whole
          reached_next storable.1
          (AreFresh-one stored db.events events fresh.1
            (subst (λ n. contains n (map id_of events) ≡ false) (sym id) apart_here))
          apart_rest in
      (stored ∷ records, after, rw (made, inserted, ran))

  append_work-succeeds :
      (marked_at clock : Datetime) (stream_id : String) (pending : List NewEvent)
      (expected required : ℕ) (db : Database) {applied_at recorded_at : ℕ}
      → IsIntact db
      → required ≤ supported_schema_version
      → has_duplicates (map id_of pending) ≡ false
      → current_stream_version stream_id db.events ≡ expected
      → All IsStorable pending
      → AreFresh db.events pending
      → to_utc marked_at ≡ ok applied_at
      → to_utc clock ≡ ok recorded_at
      → (records : List StoredEvent) × (after : Database) × (append_work sha256_hex marked_at clock
            stream_id pending expected required db
          ≡ (ok records, after))
  unfolding append_work
  append_work-succeeds marked_at clock stream_id pending expected required db {applied_at}
        {recorded_at} intact few apart current storable fresh applied recorded =
      let (marked, ran) = mark_schema-succeeds marked_at required db intact applied in
      let (whole, events, checkpoints) = mark_schema-eq-ok marked_at required db intact few ran in
      let (records, after, wrote) =
        append_events-succeeds stream_id recorded_at expected pending marked whole
          (ap (λ rs. length (stream_rows stream_id rs)) events
            ∙ sym (current_stream_version-intact stream_id db intact)
            ∙ current)
          storable (subst (λ rs. AreFresh rs pending) (sym events) fresh) apart in
      (records, after, rw (appendable stream_id expected db intact current, ran, recorded, wrote))

  -- An append goes through on an intact database where its arguments pass their checks, its version
  -- is the stream's, the payload and the metadata of every event can be written as JSON, its instant
  -- lies in the years 1 to 9999 of UTC and its event version fits an SQLite integer, no event has an
  -- identifier that the log holds, and both readings of the clock lie in those years. That SQLite
  -- itself does not fail is assumed.
  pub append-succeeds :
      (marked_at clock : Datetime) (store : Store) (stream_id : String) (pending : List NewEvent)
      (expected_version requires_schema : ℤ) {expected required applied_at recorded_at : ℕ}
      → IsIntact store.database
      → append_arguments store stream_id pending expected_version requires_schema
        ≡ ok (expected, required)
      → current_stream_version stream_id store.database.events ≡ expected
      → All IsStorable pending
      → AreFresh store.database.events pending
      → to_utc marked_at ≡ ok applied_at
      → to_utc clock ≡ ok recorded_at
      → (records : List StoredEvent) × (after : Store) × (append sha256_hex marked_at clock store
            stream_id pending expected_version requires_schema
          ≡ (ok records, after))
  unfolding append append_checked within write_transaction
  append-succeeds marked_at clock store stream_id pending version schema {expected} {required}
        intact checked current storable fresh applied recorded =
      let (given, few, batch) = arguments-eq-ok store stream_id pending version schema checked in
      let (records, after, ran) =
        append_work-succeeds marked_at clock stream_id pending expected required store.database
          intact few (require_batch-apart pending batch) current storable fresh applied recorded in
      (records, record store { database = after }, rw (checked, ran))
