-- ===== src/Store/Read.antt =====
-- store/sqlite.py: `_event_from_row`, `read_all` and `read_stream`. `loads` is `json.loads`, whose
-- error stands for every exception that the source catches there. A record keeps the stored text
-- of its payload and metadata in place of what `loads` makes of it.
pub mod Pages
pub mod Returned
use comply_roll.Common.{
  ℕ, zero, suc, ◌+◌, Bool, true, false, ◌&&◌, ◌||◌, not, ◌==◌, String, List, [], ◌∷◌, if◌then◌else◌,
  nat_eqb, ltb, leb, ℤ,
}
use comply_roll.Common.Order.{nat_order}
use comply_roll.Common.Sort.{sorted, insert_by}
use comply_roll.Errors.{Result, ok, err, refuse_if, ◌>>◌, ◌>>=◌, event_integrity}
use comply_roll.Store.Rows.{StoredEvent, Database, rows_where, limited, in_stream}
use comply_roll.Store.Arguments.{require_name, require_nonnegative_integer, require_read_limit}
use comply_roll.Store.Json.{Json, object, canonical_json_object, json_size_problem}
use comply_roll.Store.Session.{Store, require_open}

-- `_name_problem`, as the exception that it is reported in
unfoldable pub check_names : StoredEvent → Result (Unit {0})
unfolding require_name
check_names row =
    require_name row.event_id "event_id"
    >> require_name row.stream_id "stream_id"
    >> require_name row.event_type "event_type"

-- `_name_problem(row) or _version_problem(row)`
unfoldable pub column_problem : StoredEvent → Bool
unfolding check_names
column_problem row = elim (check_names row) [
  | err raised ↦ true
  | ok u ↦ ltb row.stream_version 1 || ltb row.event_version 1
]

-- `_append_json_problem`
abbrev pub same_text : String → Result String → Bool
same_text written (err raised) = false
same_text written (ok encoded) = encoded == written

-- `_require_contiguous_sequences` and `_require_contiguous_stream_versions`, for the number
-- expected first
unfoldable pub require_contiguous :
    (StoredEvent → ℕ) → String → List StoredEvent → ℕ → Result (Unit {0})
require_contiguous column missing [] expected = ok tt
require_contiguous column missing (r ∷ records) expected =
    refuse_if (not (nat_eqb (column r) expected)) (event_integrity missing)
    >> require_contiguous column missing records (suc expected)

module _ (sha256_hex : String → String) (loads : String → Result Json) where
  -- `_append_json_problem` of a column's value, with the test that the value is an object
  unfoldable pub check_json : String → String → Result (Unit {0})
  unfolding canonical_json_object
  check_json written field_name = elim (loads written) [
    | err raised ↦ err (event_integrity field_name)
    | ok value ↦
        refuse_if (not (same_text written (canonical_json_object value field_name)))
          (event_integrity field_name)
  ]

  -- `_event_from_row`
  unfoldable pub event_from_row : StoredEvent → Result StoredEvent
  unfolding column_problem json_size_problem check_json
  event_from_row row = do
    _ ← refuse_if (column_problem row) (event_integrity "column")
    _ ←
        refuse_if (not (sha256_hex row.payload_json == row.payload_sha256))
          (event_integrity "digest")
    _ ←
        refuse_if (json_size_problem row.payload_json || json_size_problem row.metadata_json)
          (event_integrity "size")
    _ ← check_json row.payload_json "payload"
    _ ← check_json row.metadata_json "metadata"
    ok row

  -- `tuple(_event_from_row(row) for row in rows)`
  unfoldable pub events_from_rows : List StoredEvent → Result (List StoredEvent)
  unfolding event_from_row
  events_from_rows [] = ok []
  events_from_rows (row ∷ rows) =
      event_from_row row >>= λ event. events_from_rows rows >>= λ events. ok (event ∷ events)

  unfoldable pub read_all : Store → ℤ → ℤ → Result (List StoredEvent)
  unfolding require_nonnegative_integer require_read_limit require_open rows_where limited
      events_from_rows require_contiguous
  read_all store after_sequence limit = do
    after ← require_nonnegative_integer after_sequence "after_sequence"
    count ← require_read_limit limit
    _ ← require_open store
    records ← events_from_rows (
        limited count
          (rows_where (λ (r : StoredEvent). ltb after r.sequence) store.database.events))
    _ ← require_contiguous (λ (r : StoredEvent). r.sequence) "sequence" records (suc after)
    ok records

  unfoldable pub read_stream : Store → String → ℤ → ℤ → Result (List StoredEvent)
  unfolding require_name require_nonnegative_integer require_read_limit require_open rows_where
      limited events_from_rows require_contiguous sorted insert_by
  read_stream store stream_id after_version limit = do
    _ ← require_name stream_id "stream_id"
    after ← require_nonnegative_integer after_version "after_version"
    count ← require_read_limit limit
    _ ← require_open store
    records ← events_from_rows (
        limited count (
          sorted (λ (r : StoredEvent). r.stream_version)
            (rows_where (λ (r : StoredEvent). in_stream stream_id r && ltb after r.stream_version)
              store.database.events)))
    _ ← require_contiguous (λ (r : StoredEvent). r.stream_version) "version" records (suc after)
    ok records
