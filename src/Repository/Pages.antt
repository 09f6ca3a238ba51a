-- ===== src/Repository/Pages.antt =====
-- events/repository.py: `read_stream` and `read_all`, which read the store page by page.
use comply_roll.Common.{
  ℕ, zero, suc, true, false, String, List, [], ◌∷◌, ◌++◌, length, ltb, pos, ◌==◌, Option, none,
  some, if◌then◌else◌,
}
use comply_roll.Errors.{Result, ok, ◌>>=◌}
use comply_roll.Store.Rows.{StoredEvent}
use comply_roll.Store.Json.{Json}
use comply_roll.Store.Session.{Store}
use comply_roll.Store.Read.{read_all as read_page, read_stream as read_stream_page}

abbrev pub read_page_size : ℕ
read_page_size = 500

-- `page[-1]`, its column
abbrev pub last_of : (StoredEvent → ℕ) → ℕ → List StoredEvent → ℕ
last_of column start [] = start
last_of column start (r ∷ records) = last_of column (column r) records

-- The loop over pages, from the number that the last page ended on. The fuel is one more than
-- there are rows.
unfoldable pub read_pages :
    (ℕ → Result (List StoredEvent)) → (StoredEvent → ℕ) → ℕ → ℕ → Result (List StoredEvent)
read_pages page_after column zero after = ok []
read_pages page_after column (suc fuel) after = page_after after >>= λ page.
    elim (ltb (length page) read_page_size) [
      | true ↦ ok page
      | false ↦ read_pages page_after column fuel (last_of column after page) >>= λ rest.
          ok (page ++ rest)
    ]

module _ (sha256_hex : String → String) (loads : String → Result Json) where
  unfoldable pub read_all : Store → Result (List StoredEvent)
  unfolding read_pages
  read_all store =
      read_pages (λ after. read_page sha256_hex loads store (pos after) (pos read_page_size))
        (λ (r : StoredEvent). r.sequence) (suc (length store.database.events)) 0

  unfoldable pub read_stream : Store → String → Result (List StoredEvent)
  unfolding read_pages
  read_stream store stream_id =
      read_pages
        (λ after.
          read_stream_page sha256_hex loads store stream_id (pos after) (pos read_page_size))
        (λ (r : StoredEvent). r.stream_version) (suc (length store.database.events)) 0

  -- `latest_payload`, as the record that holds it
  abbrev last_typed : String → Option StoredEvent → List StoredEvent → Option StoredEvent
  last_typed event_type latest [] = latest
  last_typed event_type latest (r ∷ records) =
      last_typed event_type (if r.event_type == event_type then some r else latest) records

  unfoldable pub latest_payload : Store → String → String → Result (Option StoredEvent)
  unfolding read_stream
  latest_payload store stream_id event_type =
      read_stream store stream_id >>= λ records. ok (last_typed event_type none records)
