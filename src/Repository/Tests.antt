-- ===== src/Repository/Tests.antt =====
-- events/repository.py, on a log of one event.
use comply_roll.Common.{
  ℕ, ◌≡◌, refl, true, String, List, [], ◌∷◌, All, arith, Bool-cases, inl, inr, ◌==◌,
}
use comply_roll.Errors.{Result, ok}
use comply_roll.Models.Text.{is_space}
use comply_roll.Store.Rows.{StoredEvent, stream_rows}
use comply_roll.Store.Arguments.{require_name, require_nonnegative_integer}
use comply_roll.Store.Json.{Json, object, no_field}
use comply_roll.Store.Session.{Store}
use comply_roll.Store.Append.{migrations_from}
use comply_roll.Store.Schema.{created}
use comply_roll.Store.Intact.{IsIntact}
use comply_roll.Store.Rows.{rows_where}
use comply_roll.Store.Read.{event_from_row, read_all as store_read_all}
use comply_roll.Store.Read.Returned.{IsReadable}
use comply_roll.Repository.Pages.{read_all, read_stream}
use comply_roll.Repository.Whole.{reads-whole}

abbrev sha256_hex : String → String
sha256_hex s = "00000000000000000000"

abbrev loads : String → Result Json
loads s = ok (object no_field)

abbrev stored : ℕ → String → String → StoredEvent
stored n event_id stream_id = record {
  sequence = n;
  event_id = event_id;
  stream_id = stream_id;
  stream_version = 1;
  event_type = "observation.recorded";
  event_version = 1;
  occurred_at = 5;
  recorded_at = 9;
  payload_json = "{}";
  metadata_json = "{}";
  payload_sha256 = "00000000000000000000";
}

abbrev log : List StoredEvent
log = stored 1 "evt-1" "case/1" ∷ []

abbrev store : Store
store = record {
  is_open = true;
  transaction_depth = 0;
  database = record (created 1) { events = log; counters = 1 ∷ [] };
}

one_event : IsIntact store.database
unfolding migrations_from stream_rows rows_where
one_event = record {
  sequences = (refl, tt);
  versions = λ stream_id. elim (Bool-cases ("case/1" == stream_id)) [
    | inl e ↦ rw e (refl, tt)
    | inr e ↦ rw e tt
  ];
  identifiers = (tt, tt);
  one_counter = omega arith;
  counter = refl;
  marked = refl;
  supported = (omega arith, omega arith);
  records = (refl, tt);
  recorded = refl;
  checkpoints = tt;
}

readable : All (IsReadable sha256_hex loads) log
unfolding event_from_row is_space
readable = (refl, tt)

named : require_name "case/1" "stream_id" ≡ ok tt
unfolding require_name is_space
named = refl

reads-whole_example :
    (read_all sha256_hex loads store ≡ ok log)
    × (read_stream sha256_hex loads store "case/1" ≡ ok (stream_rows "case/1" log))
reads-whole_example = reads-whole sha256_hex loads store "case/1" named one_event readable refl

log_read : read_all sha256_hex loads store ≡ ok log
unfolding read_all store_read_all is_space require_nonnegative_integer
log_read = refl
