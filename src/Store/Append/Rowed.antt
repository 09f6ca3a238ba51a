-- ===== src/Store/Append/Rowed.antt =====
-- store/sqlite.py: what one INSERT of `append` leaves, and what its loop leaves.
pub mod Loop
use comply_roll.Common.{
  ℕ, zero, suc, ◌+◌, ◌≤◌, ◌≡◌, refl, ap, sym, subst, ◌∙◌, Bool, true, false, ◌&&◌, ◌||◌, ◌==◌,
  String, List, [], ◌∷◌, ◌++◌, length, length-append, any, map, All, All-append, All-imp, arith,
  nat_eqb, leb, Bool-cases, inl, inr, if◌then◌else◌, eq_iff, eq_refl,
}
use comply_roll.Errors.{Result, ok, err, event_conflict}
use comply_roll.Store.Rows.{
  StoredEvent, Checkpoint, Database, stream_rows, rows_where, counter_of, counted, latest_sequence,
  is_taken, next_sequence, with_event, in_stream,
}
use comply_roll.Store.Append.{insert_event}
use comply_roll.Store.Numbered.{IsNumbered, IsNumbered-append}
use comply_roll.Store.Intact.{
  IsIntact, Unused, DistinctIds, DistinctIds-append, sequence_of, version_of,
  latest_sequence-intact, stream_rows-append,
}

-- A row with a free identifier.
is_taken-free :
    (event_id stream_id : String) (stream_version : ℕ) (rows : List StoredEvent)
    → is_taken event_id stream_id stream_version rows ≡ false
    → Unused event_id rows
unfolding is_taken
is_taken-free event_id stream_id stream_version [] free = tt
is_taken-free event_id stream_id stream_version (r ∷ rows) free = (
  ground (arith, free),
  is_taken-free event_id stream_id stream_version rows (ground (arith, free)),
)

-- The rows of a stream after one more row.
stream_rows-one :
    (stream_id : String) (row : StoredEvent) (rows : List StoredEvent)
    → stream_rows stream_id (rows ++ row ∷ []) ≡ (
        if in_stream stream_id row
        then stream_rows stream_id rows ++ row ∷ []
        else stream_rows stream_id rows ++ [])
unfolding stream_rows rows_where
stream_rows-one stream_id row rows =
    stream_rows-append stream_id rows (row ∷ []) ∙ (elim (Bool-cases (in_stream stream_id row)) [
      | inl e ↦ rw (e, rows_where)
      | inr e ↦ rw (e, rows_where)
    ])

append-nil : (rows : List StoredEvent) → rows ++ [] ≡ rows
append-nil [] = refl
append-nil (r ∷ rows) = ap (λ l. r ∷ l) (append-nil rows)

length-stream_rows-own :
    (stream_id : String) (row : StoredEvent) (rows : List StoredEvent)
    → row.stream_id ≡ stream_id
    → length (stream_rows stream_id (rows ++ row ∷ [])) ≡ suc (length (stream_rows stream_id rows))
length-stream_rows-own stream_id row rows own =
    ap length (stream_rows-one stream_id row rows)
    ∙ rw ((eq_iff row.stream_id stream_id).1 own)
        (length-append (stream_rows stream_id rows) (row ∷ []) ∙ omega arith)

counted-one : (n : ℕ) (counters : List ℕ) → length counters ≤ 1 → length (counted n counters) ≤ 1
counted-one n [] h = omega arith
counted-one n (c ∷ counters) h = h

counter_of-counted : (n : ℕ) (counters : List ℕ) → counter_of (counted n counters) ≡ n
counter_of-counted n [] = refl
counter_of-counted n (c ∷ counters) = refl

versions-with_event :
    (row : StoredEvent) (db : Database)
    → IsIntact db
    → row.stream_version ≡ suc (length (stream_rows row.stream_id db.events))
    → (stream_id : String) → IsNumbered version_of 0 (stream_rows stream_id (db.events ++ row ∷ []))
versions-with_event row db intact next stream_id =
    subst (λ rows. IsNumbered version_of 0 rows) (sym (stream_rows-one stream_id row db.events))
      (elim (Bool-cases (in_stream stream_id row)) [
        | inl e ↦
            let same : row.stream_id ≡ stream_id = (eq_iff row.stream_id stream_id).0 e in
            rw e (
              IsNumbered-append version_of 0 (stream_rows stream_id db.events) (row ∷ [])
                (intact.versions stream_id)
                (next ∙ ap (λ s. suc (length (stream_rows s db.events))) same ∙ omega arith, tt))
        | inr e ↦ rw e (
            subst (λ rows. IsNumbered version_of 0 rows)
              (sym (append-nil (stream_rows stream_id db.events))) (intact.versions stream_id))
      ])

-- A row with the next sequence, the next version of its stream and a free identifier.
pub with_event-IsIntact :
    (row : StoredEvent) (db : Database)
    → IsIntact db
    → row.sequence ≡ suc (length db.events)
    → row.stream_version ≡ suc (length (stream_rows row.stream_id db.events))
    → Unused row.event_id db.events
    → IsIntact (with_event row db)
unfolding with_event
with_event-IsIntact row db intact numbered next free = record {
  sequences =
      IsNumbered-append sequence_of 0 db.events (row ∷ []) intact.sequences
        (numbered ∙ omega arith, tt);
  versions = versions-with_event row db intact next;
  identifiers = DistinctIds-append db.events (row ∷ []) intact.identifiers (tt, tt) (free, tt);
  one_counter = counted-one row.sequence db.counters intact.one_counter;
  counter = omega (
    arith,
    counter_of-counted row.sequence db.counters,
    numbered,
    length-append db.events (row ∷ []),
  );
  marked = intact.marked;
  supported = intact.supported;
  records = intact.records;
  recorded = intact.recorded;
  checkpoints =
      All-imp db.checkpoints
        (λ (c : Checkpoint) h. omega (arith, h, length-append db.events (row ∷ [])))
        intact.checkpoints;
}

-- On an intact database an INSERT that returns has added one row, with the next sequence.
pub insert_event-eq-ok :
    (row : StoredEvent) (db : Database) {stored : StoredEvent} {after : Database}
    → IsIntact db
    → insert_event row db ≡ (ok stored, after)
    → (stored ≡ record row { sequence = suc (length db.events) })
      × (after ≡ with_event stored db)
      × Unused row.event_id db.events
unfolding insert_event next_sequence
insert_event-eq-ok row db {stored} {after} intact returns =
    elim (Bool-cases (is_taken row.event_id row.stream_id row.stream_version db.events)) [
      | inl e ↦ absurd (refused e)
      | inr e ↦
          let made : stored ≡ record row { sequence = next_sequence db } = added e in
          (
            made
                ∙ ap (λ n. record row { sequence = n })
                    (ground (arith, intact.counter, latest_sequence-intact db intact)),
            left e ∙ ap (λ r. with_event r db) (sym made),
            is_taken-free row.event_id row.stream_id row.stream_version db.events e,
          )
    ]
  where
    refused : is_taken row.event_id row.stream_id row.stream_version db.events ≡ true → ⊥
    refused e = let h = rw e at returns in cc

    added :
        is_taken row.event_id row.stream_id row.stream_version db.events ≡ false
        → stored ≡ record row { sequence = next_sequence db }
    added e = let h = rw e at returns in cc

    left :
        is_taken row.event_id row.stream_id row.stream_version db.events ≡ false
        → after ≡ with_event (record row { sequence = next_sequence db }) db
    left e = let h = rw e at returns in cc
