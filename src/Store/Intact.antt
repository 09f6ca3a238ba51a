-- ===== src/Store/Intact.antt =====
-- store/sqlite.py: the database that the store keeps, and what its tables' aggregates return there.
use comply_roll.Common.{
  ℕ, ◌≤◌, ◌≡◌, false, ◌==◌, String, List, [], ◌∷◌, ◌++◌, length, All, All-append, arith, eq_iff,
}
use comply_roll.Errors.{ok}
use comply_roll.Store.Rows.{
  StoredEvent, Migration, Checkpoint, Database, stream_rows, in_stream, counter_of, latest_sequence,
  current_stream_version,
}
use comply_roll.Store.Arguments.{supported_schema_version}
use comply_roll.Store.History.{
  counter_problem, require_sequence_counter_intact, require_history_contiguous,
  require_sequences_contiguous, require_stream_contiguous,
}
use comply_roll.Store.Numbered.{
  IsNumbered, highest_of-numbered, numbered-is_contiguous, rows_where-append,
}
use comply_roll.Store.Append.{application_id}

abbrev pub sequence_of : StoredEvent → ℕ
sequence_of r = r.sequence

abbrev pub version_of : StoredEvent → ℕ
version_of r = r.stream_version

-- No row has the identifier.
abbrev pub Unused : String → List StoredEvent → Type 0
Unused event_id rows = All (λ (r : StoredEvent). (r.event_id == event_id) ≡ false) rows

-- No two rows have one identifier.
abbrev pub DistinctIds : List StoredEvent → Type 0
DistinctIds [] = Unit
DistinctIds (r ∷ rs) = Unused r.event_id rs × DistinctIds rs

-- Sequences run from 1 without a gap, and so do the versions of each stream; the counter is the
-- last sequence; the migration records are those up to the marker; no checkpoint is ahead of the
-- log.
pub record IsIntact (db : Database) : Type 0 where
  pub sequences : IsNumbered sequence_of 0 db.events
  pub versions : (stream_id : String) → IsNumbered version_of 0 (stream_rows stream_id db.events)
  pub identifiers : DistinctIds db.events
  pub one_counter : length db.counters ≤ 1
  pub counter : counter_of db.counters ≡ length db.events
  pub marked : application_id ≡ db.application_id
  pub supported : (1 ≤ db.user_version) × (db.user_version ≤ supported_schema_version)
  pub records : IsNumbered (λ (m : Migration). m.version) 0 db.migrations
  pub recorded : length db.migrations ≡ db.user_version
  pub checkpoints : All (λ (c : Checkpoint). c.last_sequence ≤ length db.events) db.checkpoints

pub latest_sequence-intact :
    (db : Database) → IsIntact db → latest_sequence db.events ≡ length db.events
unfolding latest_sequence
latest_sequence-intact db intact = highest_of-numbered sequence_of db.events intact.sequences

pub current_stream_version-intact :
    (stream_id : String) (db : Database)
    → IsIntact db
    → current_stream_version stream_id db.events ≡ length (stream_rows stream_id db.events)
unfolding current_stream_version
current_stream_version-intact stream_id db intact =
    highest_of-numbered version_of (stream_rows stream_id db.events) (intact.versions stream_id)

-- The checks of an append pass on an intact database.
pub counter-passes : (db : Database) → IsIntact db → require_sequence_counter_intact db ≡ ok tt
unfolding require_sequence_counter_intact counter_problem
counter-passes db intact =
    ground (arith, intact.one_counter, intact.counter, latest_sequence-intact db intact)

pub history-passes :
    (stream_id : String) (db : Database)
    → IsIntact db
    → require_history_contiguous stream_id db ≡ ok tt
unfolding require_history_contiguous require_sequences_contiguous require_stream_contiguous
history-passes stream_id db intact = rw (
  numbered-is_contiguous sequence_of db.events intact.sequences,
  numbered-is_contiguous version_of (stream_rows stream_id db.events) (intact.versions stream_id),
)

pub stream_rows-append :
    (stream_id : String) (rs ss : List StoredEvent)
    → stream_rows stream_id (rs ++ ss) ≡ stream_rows stream_id rs ++ stream_rows stream_id ss
unfolding stream_rows
stream_rows-append stream_id rs ss = rows_where-append (in_stream stream_id) rs ss

pub DistinctIds-append :
    (rs ss : List StoredEvent)
    → DistinctIds rs
    → DistinctIds ss
    → All (λ (s : StoredEvent). Unused s.event_id rs) ss
    → DistinctIds (rs ++ ss)
DistinctIds-append [] ss h k apart = k
DistinctIds-append (r ∷ rs) ss h k apart = (
  All-append _ rs ss h.0 (turned r rs ss apart),
  DistinctIds-append rs ss h.1 k (rest r rs ss apart),
)
  where
    turned :
        (r : StoredEvent) (rs ss : List StoredEvent)
        → All (λ (s : StoredEvent). Unused s.event_id (r ∷ rs)) ss
        → Unused r.event_id ss
    turned r rs [] apart = tt
    turned r rs (s ∷ ss) apart = (
      ground (arith, apart.0.0, eq_iff r.event_id s.event_id, eq_iff s.event_id r.event_id),
      turned r rs ss apart.1,
    )

    rest :
        (r : StoredEvent) (rs ss : List StoredEvent)
        → All (λ (s : StoredEvent). Unused s.event_id (r ∷ rs)) ss
        → All (λ (s : StoredEvent). Unused s.event_id rs) ss
    rest r rs [] apart = tt
    rest r rs (s ∷ ss) apart = (apart.0.1, rest r rs ss apart.1)
