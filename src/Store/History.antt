-- ===== src/Store/History.antt =====
-- store/sqlite.py: the checks of history that an append runs under the write lock.
use comply_roll.Common.{
  ℕ, ◌-◌, Bool, ◌&&◌, ◌||◌, not, String, List, length, any, Option, none, some, nat_eqb, ltb,
}
use comply_roll.Errors.{Error, Result, refuse_if, ◌>>◌, event_integrity, event_concurrency}
use comply_roll.Store.Rows.{
  StoredEvent, Database, rows_where, least_of, or_zero, highest_of, latest_sequence, stream_rows,
  current_stream_version, counter_of,
}

-- `_counter_problem`: a second row for `events`
unfoldable pub counter_problem : List ℕ → Bool
counter_problem rows = ltb 1 (length rows)

unfoldable pub require_sequence_counter_intact : Database → Result (Unit {0})
unfolding counter_problem latest_sequence
require_sequence_counter_intact db =
    refuse_if (counter_problem db.counters) (event_integrity "counter stored in more than one row")
    >> refuse_if (not (nat_eqb (counter_of db.counters) (latest_sequence db.events)))
        (event_integrity "counter is not the last sequence")

-- `stored == 0 or (stored == highest and lowest == 1)`
abbrev pub is_contiguous {ℓ} : {A : Type ℓ} → (A → ℕ) → List A → Bool
is_contiguous column rows =
    nat_eqb (length rows) 0
    || (nat_eqb (length rows) (highest_of column rows)
        && nat_eqb (or_zero (least_of column rows)) 1)

-- `MIN(e.column)` of the rows with no predecessor, the two gap errors' lookup
unfoldable pub first_after_gap {ℓ} : {A : Type ℓ} → (A → ℕ) → List A → Option ℕ
unfolding rows_where least_of
first_after_gap column rows = least_of column (
    rows_where (λ r. ltb 1 (column r) && not (any (λ p. nat_eqb (column p) (column r - 1)) rows))
      rows)

-- `_sequence_gap_error`
unfoldable pub sequence_gap_error : List StoredEvent → Error
unfolding first_after_gap
sequence_gap_error rows = elim (first_after_gap (λ (r : StoredEvent). r.sequence) rows) [
  | none ↦ event_integrity "history holds events but its sequences run past them"
  | some following ↦ event_integrity "history is missing a sequence"
]

-- `_stream_version_gap_error`
unfoldable pub stream_version_gap_error : List StoredEvent → Error
unfolding first_after_gap
stream_version_gap_error rows =
    elim (first_after_gap (λ (r : StoredEvent). r.stream_version) rows) [
      | none ↦ event_integrity "stream holds events but its versions run past them"
      | some following ↦ event_integrity "stream is missing a version"
    ]

unfoldable pub require_sequences_contiguous : Database → Result (Unit {0})
unfolding highest_of least_of sequence_gap_error
require_sequences_contiguous db =
    refuse_if (not (is_contiguous (λ (r : StoredEvent). r.sequence) db.events))
      (sequence_gap_error db.events)

unfoldable pub require_stream_contiguous : String → Database → Result (Unit {0})
unfolding highest_of least_of stream_rows stream_version_gap_error
require_stream_contiguous stream_id db =
    let rows = stream_rows stream_id db.events in
    refuse_if (not (is_contiguous (λ (r : StoredEvent). r.stream_version) rows))
      (stream_version_gap_error rows)

-- `_require_history_contiguous`, with the stream that an append is about to touch
unfoldable pub require_history_contiguous : String → Database → Result (Unit {0})
unfolding require_sequences_contiguous require_stream_contiguous
require_history_contiguous stream_id db =
    require_sequences_contiguous db >> require_stream_contiguous stream_id db

-- The optimistic check of an append.
unfoldable pub require_version : String → ℕ → Database → Result (Unit {0})
unfolding current_stream_version
require_version stream_id expected_version db =
    refuse_if (not (nat_eqb (current_stream_version stream_id db.events) expected_version))
      (event_concurrency stream_id)
