-- ===== src/Store/Tests.antt =====
-- store/sqlite.py, on small inputs.
use comply_roll.Common.{
  ℕ, ◌≤◌, ◌≡◌, ◌≢◌, ◌↔◌, refl, true, false, String, List, [], ◌∷◌, ◌++◌, All, arith, pos, some,
}
use comply_roll.Errors.{Result, ok, err, event_concurrency, value_error, overflow_error}
use comply_roll.Instant.{utc, to_utc}
use comply_roll.Models.Text.{is_space}
use comply_roll.Store.Arguments.{require_nonnegative_integer}
use comply_roll.Store.Rows.{StoredEvent, stream_rows, latest_sequence, current_stream_version}
use comply_roll.Store.Json.{
  Json, null, text, integer, array, object, no_value, value, no_field, field, foreign,
  canonical_json_object, validate_json_tree, max_event_json_values,
}
use comply_roll.Store.Json.Walk.{values_in, fits, validate_json_tree_lem}
use comply_roll.Store.Session.{Store, transaction}
use comply_roll.Store.Append.{NewEvent, append, append_arguments, migrations_from}
use comply_roll.Store.Schema.{created}
use comply_roll.Store.Schema.Opened.{created-IsIntact}
use comply_roll.Store.Intact.{IsIntact, sequence_of, version_of}
use comply_roll.Store.Numbered.{IsNumbered}
use comply_roll.Store.Append.Rowed.Loop.{AreWritten}
use comply_roll.Store.Append.Contract.{append-eq-ok}
use comply_roll.Store.Append.Refused.{append-eq-err, append-stale}
use comply_roll.Store.Append.Succeeds.{append-succeeds}
use comply_roll.Store.Read.{read_all}
use comply_roll.Store.Read.Returned.{read_all-eq-ok}
use comply_roll.Store.Projection.{ProjectionCheckpoint, advance_projection}
use comply_roll.Store.Steps.{
  Call, appending, advancing, Statement, calling, run_command, run_statements, called, in_block,
  here, next,
}
use comply_roll.Store.Steps.Kept.{Reach-Grows}
use comply_roll.Store.Verify.{walk_faults}
use comply_roll.Store.Verify.Sound.{IsClean}
use comply_roll.Store.Verify.Walked.{walk_faults-eq-nil}

abbrev sha256_hex : String → String
sha256_hex s = "00000000000000000000"

abbrev empty : Json
empty = object no_field

abbrev loads : String → Result Json
loads s = ok empty

abbrev payload : Json
payload = object (
    field "b" (integer (pos 10))
      (field "a" (array (value (text "x\"y\n") (value null no_value))) no_field))

canonical : canonical_json_object payload "payload" ≡ ok "{\"a\":[\"x\\\"y\\n\",null],\"b\":10}"
unfolding canonical_json_object
canonical = refl

abbrev fresh : Store
fresh = record { is_open = true; transaction_depth = 0; database = created 1 }

abbrev event : String → NewEvent
event event_id = record {
  event_type = "observation.recorded";
  occurred_at = utc 5;
  payload = empty;
  metadata = empty;
  event_id = event_id;
  event_version = 1;
}

abbrev batch : List NewEvent
batch = event "evt-1" ∷ event "evt-2" ∷ []

abbrev run : Result (List StoredEvent) × Store
run = append sha256_hex (utc 7) (utc 9) fresh "case/1" batch (pos 0) (pos 2)

abbrev stored : ℕ → String → StoredEvent
stored n event_id = record {
  sequence = n;
  event_id = event_id;
  stream_id = "case/1";
  stream_version = n;
  event_type = "observation.recorded";
  event_version = 1;
  occurred_at = 5;
  recorded_at = 9;
  payload_json = "{}";
  metadata_json = "{}";
  payload_sha256 = "00000000000000000000";
}

abbrev records : List StoredEvent
records = stored 1 "evt-1" ∷ stored 2 "evt-2" ∷ []

abbrev kept : Store
kept = record {
  is_open = true;
  transaction_depth = 0;
  database = record {
    application_id = 1129467724;
    user_version = 2;
    migrations =
        record {
          version = 1;
          description = "append-only event history and projection checkpoints";
          applied_at = 1;
        }
        ∷ record { version = 2; description = "failure streams, ADR 0014"; applied_at = 7 }
        ∷ [];
    events = records;
    counters = 2 ∷ [];
    checkpoints = [];
  };
}

run_returns : run ≡ (ok records, kept)
unfolding append migrations_from is_space require_nonnegative_integer
run_returns = refl

append-eq-ok_example :
    (at : ℕ) × (to_utc (utc 9) ≡ ok at)
    × (pos 0 ≡ pos (current_stream_version "case/1" fresh.database.events))
    × (kept.database.events ≡ fresh.database.events ++ records)
    × AreWritten sha256_hex "case/1" at
        (latest_sequence fresh.database.events)
        (current_stream_version "case/1" fresh.database.events)
        batch
        records
    × IsIntact kept.database
    × (kept.database.checkpoints ≡ fresh.database.checkpoints)
append-eq-ok_example =
    append-eq-ok sha256_hex (utc 7) (utc 9) fresh "case/1" batch (pos 0) (pos 2)
      (created-IsIntact 1) run_returns

kept-IsIntact : IsIntact kept.database
kept-IsIntact = append-eq-ok_example.5

-- A second batch at the version that the first one used.
late_arguments : append_arguments kept "case/1" (event "evt-3" ∷ []) (pos 0) (pos 1) ≡ ok (0, 1)
unfolding append_arguments is_space require_nonnegative_integer
late_arguments = refl

late_version : current_stream_version "case/1" kept.database.events ≢ 0
unfolding current_stream_version
late_version h = omega (arith, h)

append-stale_example :
    append sha256_hex (utc 7) (utc 9) kept "case/1" (event "evt-3" ∷ []) (pos 0) (pos 1)
    ≡ (err (event_concurrency "case/1"), kept)
append-stale_example =
    append-stale sha256_hex (utc 7) (utc 9) kept "case/1" (event "evt-3" ∷ []) (pos 0) (pos 1)
      kept-IsIntact refl late_arguments late_version

-- The second event of the batch is refused for its payload, after the first was inserted.
abbrev bad_batch : List NewEvent
bad_batch =
    event "evt-3"
    ∷ record (event "evt-4") { payload = object (field "when" (foreign "datetime") no_field) }
    ∷ []

bad_append :
    append sha256_hex (utc 7) (utc 9) kept "case/1" bad_batch (pos 2) (pos 1)
    ≡ (err (value_error "payload"), kept)
unfolding append is_space require_nonnegative_integer
bad_append = refl

append-eq-err_example : kept ≡ kept
append-eq-err_example =
    append-eq-err sha256_hex (utc 7) (utc 9) kept "case/1" bad_batch (pos 2) (pos 1) refl bad_append

retry_arguments : append_arguments kept "case/1" (event "evt-3" ∷ []) (pos 2) (pos 1) ≡ ok (2, 1)
unfolding append_arguments is_space require_nonnegative_integer
retry_arguments = refl

retry_version : current_stream_version "case/1" kept.database.events ≡ 2
unfolding current_stream_version
retry_version = refl

empty_object : canonical_json_object empty "payload" ≡ ok "{}"
unfolding canonical_json_object
empty_object = refl

empty_metadata : canonical_json_object empty "metadata" ≡ ok "{}"
unfolding canonical_json_object
empty_metadata = refl

utc_5 : to_utc (utc 5) ≡ ok 5
unfolding to_utc
utc_5 = refl

utc_7 : to_utc (utc 7) ≡ ok 7
unfolding to_utc
utc_7 = refl

append-succeeds_example :
    (made : List StoredEvent) × (after : Store) × (append sha256_hex
        (utc 7)
        (utc 7)
        kept
        "case/1"
        (event "evt-3" ∷ [])
        (pos 2)
        (pos 1)
      ≡ (ok made, after))
append-succeeds_example =
    append-succeeds sha256_hex (utc 7) (utc 7) kept "case/1" (event "evt-3" ∷ []) (pos 2) (pos 1)
      kept-IsIntact retry_arguments retry_version
      ((("{}", empty_object), ("{}", empty_metadata), (5, utc_5), omega (arith)), tt)
      ((refl, (refl, tt)), tt) utc_7 utc_7

abbrev first_call : Call
first_call = record {
  marked_at = utc 7;
  clock = utc 9;
  stream_id = "case/1";
  pending = batch;
  expected_version = pos 0;
  requires_schema = pos 2;
}

-- The batch of `bad_append`, whose first event is inserted before its second is refused.
abbrev bad_call : Call
bad_call = record first_call { pending = bad_batch; expected_version = pos 2 }

-- A block that catches what the bad batch raises and then moves a checkpoint past its first event.
abbrev statements : List Statement
statements =
    calling (appending bad_call) true
    ∷ calling (advancing (utc 9) "report" (pos 0) (pos 3)) false
    ∷ []

abbrev after_block : Store
after_block = record kept {
  database = record kept.database {
    events = stored 1 "evt-1" ∷ stored 2 "evt-2" ∷ stored 3 "evt-3" ∷ [];
    counters = 3 ∷ [];
    checkpoints = record { projection_name = "report"; last_sequence = 3; updated_at = 9 } ∷ [];
  };
}

first_call_runs : run_command sha256_hex (appending first_call) fresh ≡ (ok tt, kept)
unfolding run_command append migrations_from is_space require_nonnegative_integer
first_call_runs = refl

block_runs : transaction kept (run_statements sha256_hex statements) ≡ (ok tt, after_block)
unfolding transaction run_statements append advance_projection migrations_from is_space
    require_nonnegative_integer
block_runs = refl

Reach-Grows_example :
    IsIntact after_block.database
    × (after_block.transaction_depth ≡ fresh.transaction_depth)
    × ((suffix : List StoredEvent) × (after_block.database.events
          ≡ fresh.database.events ++ suffix))
Reach-Grows_example = Reach-Grows sha256_hex (created-IsIntact 1) (
    next (next here (called (appending first_call) (ok tt) first_call_runs))
      (in_block statements (ok tt) block_runs))

-- A version that no SQLite integer holds.
abbrev huge_batch : List NewEvent
huge_batch = record (event "evt-3") { event_version = 9223372036854775808 } ∷ []

huge_append :
    append sha256_hex (utc 7) (utc 9) kept "case/1" huge_batch (pos 2) (pos 1)
    ≡ (err overflow_error, kept)
unfolding append is_space require_nonnegative_integer
huge_append = refl

first_page : read_all sha256_hex loads kept (pos 1) (pos 5) ≡ ok (stored 2 "evt-2" ∷ [])
unfolding read_all is_space require_nonnegative_integer
first_page = refl

read_all-eq-ok_example :
    (after : ℕ) × (pos 1 ≡ pos after) × IsNumbered sequence_of after (stored 2 "evt-2" ∷ [])
read_all-eq-ok_example = read_all-eq-ok sha256_hex loads kept (pos 1) (pos 5) first_page

validate_json_tree_lem_example :
    (validate_json_tree payload "payload" ≡ ok tt)
    ↔ ((values_in payload ≤ max_event_json_values) × (fits 0 payload ≡ true))
validate_json_tree_lem_example = validate_json_tree_lem payload "payload"

abbrev moved : ProjectionCheckpoint
moved = record { name = "report"; last_sequence = 2; updated_at = some 9 }

abbrev advanced_to : Store
advanced_to = record kept {
  database = record kept.database {
    checkpoints = record { projection_name = "report"; last_sequence = 2; updated_at = 9 } ∷ [];
  };
}

walk_faults-eq-nil_example : (walk_faults sha256_hex loads 1 [] kept.database.events ≡ []) ↔ (
    IsNumbered sequence_of 0 kept.database.events
    × ((stream_id : String) → IsNumbered version_of 0 (stream_rows stream_id kept.database.events))
    × All (IsClean sha256_hex loads) kept.database.events)
walk_faults-eq-nil_example = walk_faults-eq-nil sha256_hex loads kept.database

-- The walk over a log with its first event deleted.
gap_found :
    walk_faults sha256_hex loads 1 [] (stored 2 "evt-2" ∷ [])
    ≡ record { sequence = some 2; code = "sequence_gap" }
      ∷ record { sequence = some 2; code = "stream_version_gap" }
      ∷ []
unfolding walk_faults is_space
gap_found = refl
