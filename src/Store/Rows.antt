-- ===== src/Store/Rows.antt =====
-- store/sqlite.py: the tables of the store (`_SCHEMA_V1`) and the statements that read them. A
-- table is the list of its rows in the order of its key. An instant stands for the text that
-- `_format_timestamp` makes of it.
use comply_roll.Common.{
  ℕ, zero, suc, Bool, ◌&&◌, ◌||◌, ◌==◌, String, List, [], ◌∷◌, ◌++◌, any, Option, none, some,
  if◌then◌else◌, nat_eqb, leb,
}

pub record StoredEvent : Type 0 where
  pub sequence : ℕ
  pub event_id : String
  pub stream_id : String
  pub stream_version : ℕ
  pub event_type : String
  pub event_version : ℕ
  pub occurred_at : ℕ
  pub recorded_at : ℕ
  pub payload_json : String
  pub metadata_json : String
  pub payload_sha256 : String

pub record Migration : Type 0 where
  pub version : ℕ
  pub description : String
  pub applied_at : ℕ

pub record Checkpoint : Type 0 where
  pub projection_name : String
  pub last_sequence : ℕ
  pub updated_at : ℕ

-- `counters` are the rows that `sqlite_sequence` has for `events`.
pub record Database : Type 0 where
  pub application_id : ℕ
  pub user_version : ℕ
  pub migrations : List Migration
  pub events : List StoredEvent
  pub counters : List ℕ
  pub checkpoints : List Checkpoint

-- `WHERE`
unfoldable pub rows_where {ℓ} : {A : Type ℓ} → (A → Bool) → List A → List A
rows_where test [] = []
rows_where test (r ∷ rs) = if test r then r ∷ rows_where test rs else rows_where test rs

-- `LIMIT`
unfoldable pub limited {ℓ} : {A : Type ℓ} → ℕ → List A → List A
limited zero rs = []
limited (suc n) [] = []
limited (suc n) (r ∷ rs) = r ∷ limited n rs

abbrev pub larger : ℕ → ℕ → ℕ
larger a b = if leb a b then b else a

-- `COALESCE(MAX(column), 0)`
unfoldable pub highest_of {ℓ} : {A : Type ℓ} → (A → ℕ) → List A → ℕ
highest_of column [] = 0
highest_of column (r ∷ rs) = larger (column r) (highest_of column rs)

-- `MIN(column)`, and with `COALESCE(…, 0)`
unfoldable pub least_of {ℓ} : {A : Type ℓ} → (A → ℕ) → List A → Option ℕ
least_of column [] = none
least_of column (r ∷ rs) = elim (least_of column rs) [
  | none ↦ some (column r)
  | some least ↦ some (if leb (column r) least then column r else least)
]

abbrev pub or_zero : Option ℕ → ℕ
or_zero none = 0
or_zero (some n) = n

-- `WHERE stream_id = ?`
abbrev pub in_stream : String → StoredEvent → Bool
in_stream stream_id r = r.stream_id == stream_id

unfoldable pub stream_rows : String → List StoredEvent → List StoredEvent
unfolding rows_where
stream_rows stream_id rows = rows_where (in_stream stream_id) rows

-- `latest_sequence`
unfoldable pub latest_sequence : List StoredEvent → ℕ
unfolding highest_of
latest_sequence rows = highest_of (λ (r : StoredEvent). r.sequence) rows

-- `_current_stream_version`
unfoldable pub current_stream_version : String → List StoredEvent → ℕ
unfolding highest_of stream_rows
current_stream_version stream_id rows =
    highest_of (λ (r : StoredEvent). r.stream_version) (stream_rows stream_id rows)

-- `rows[0][0] if rows else 0`
abbrev pub counter_of : List ℕ → ℕ
counter_of [] = 0
counter_of (counter ∷ rest) = counter

-- The columns that are UNIQUE.
unfoldable pub is_taken : String → String → ℕ → List StoredEvent → Bool
is_taken event_id stream_id stream_version rows =
    any
      (λ (r : StoredEvent).
        r.event_id == event_id
        || (r.stream_id == stream_id && nat_eqb r.stream_version stream_version))
      rows

-- What an INSERT leaves in `sqlite_sequence`.
abbrev pub counted : ℕ → List ℕ → List ℕ
counted sequence [] = sequence ∷ []
counted sequence (counter ∷ rest) = sequence ∷ rest

-- The `AUTOINCREMENT` key of the next row.
unfoldable pub next_sequence : Database → ℕ
unfolding latest_sequence
next_sequence db = suc (larger (counter_of db.counters) (latest_sequence db.events))

-- `INSERT INTO events`, with the key in the row.
unfoldable pub with_event : StoredEvent → Database → Database
with_event row db = record db {
  events = db.events ++ row ∷ [];
  counters = counted row.sequence db.counters;
}
