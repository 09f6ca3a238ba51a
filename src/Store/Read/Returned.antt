-- ===== src/Store/Read/Returned.antt =====
-- store/sqlite.py: what `read_all` and `read_stream` return.
use comply_roll.Common.{
  ℕ, suc, ◌≤◌, ◌≡◌, refl, subst, true, ◌&&◌, String, List, [], ◌∷◌, All, arith, ltb, leb, ℤ, pos,
  negsuc,
}
use comply_roll.Errors.{Result, ok, >>=-eq-ok}
use comply_roll.Store.Rows.{StoredEvent, rows_where, limited, stream_rows}
use comply_roll.Store.Arguments.{
  require_name, require_nonnegative_integer, require_read_limit, max_read_batch,
}
use comply_roll.Store.Json.{Json}
use comply_roll.Store.Session.{Store, require_open}
use comply_roll.Store.Numbered.{IsNumbered}
use comply_roll.Store.Intact.{IsIntact, sequence_of, version_of}
use comply_roll.Store.Read.{
  event_from_row, events_from_rows, require_contiguous, read_all, read_stream,
}
use comply_roll.Store.Read.Pages.{
  dropped, rows_where-after, IsNumbered-after, IsNumbered-limited, sorted-numbered,
  require_contiguous-numbered, require_contiguous-eq-ok, All-limited, All-dropped, All-stream_rows,
  stream_rows-where,
}

module _ (sha256_hex : String → String) (loads : String → Result Json) where
  -- A read of the row returns it.
  abbrev pub IsReadable : StoredEvent → Type 0
  IsReadable row = event_from_row sha256_hex loads row ≡ ok row

  events_from_rows-readable :
      (rows : List StoredEvent)
      → All IsReadable rows
      → events_from_rows sha256_hex loads rows ≡ ok rows
  unfolding events_from_rows
  events_from_rows-readable [] h = refl
  events_from_rows-readable (row ∷ rows) h = rw (h.0, events_from_rows-readable rows h.1)

  -- On an intact database whose rows can be read, an open store returns the page of the log that
  -- the arguments ask for: of the events after the first `after`, the first `count`.
  pub read_all-page :
      (store : Store) (after count : ℕ)
      → IsIntact store.database
      → All IsReadable store.database.events
      → store.is_open ≡ true
      → 1 ≤ count
      → count ≤ max_read_batch
      → read_all sha256_hex loads store (pos after) (pos count)
        ≡ ok (limited count (dropped after store.database.events))
  unfolding read_all require_nonnegative_integer require_read_limit require_open
  read_all-page store after count intact readable opened some few =
      let page : List StoredEvent = limited count (dropped after store.database.events) in
      let within : (leb 1 count && leb count max_read_batch) ≡ true = ground arith in
      rw (
        within,
        opened,
        rows_where-after sequence_of after store.database.events intact.sequences,
        events_from_rows-readable page
            (All-limited IsReadable count _ (All-dropped IsReadable after _ readable)),
        require_contiguous-numbered sequence_of "sequence" page after (
            IsNumbered-limited sequence_of after count _
              (IsNumbered-after sequence_of after _ intact.sequences)),
      )

  -- The same of one stream, in the order of its versions, for a name that passes its check.
  pub read_stream-page :
      (store : Store) (stream_id : String) (after count : ℕ)
      → require_name stream_id "stream_id" ≡ ok tt
      → IsIntact store.database
      → All IsReadable store.database.events
      → store.is_open ≡ true
      → 1 ≤ count
      → count ≤ max_read_batch
      → read_stream sha256_hex loads store stream_id (pos after) (pos count)
        ≡ ok (limited count (dropped after (stream_rows stream_id store.database.events)))
  unfolding read_stream require_nonnegative_integer require_read_limit require_open
  read_stream-page store stream_id after count named intact readable opened some few =
      let rows : List StoredEvent = stream_rows stream_id store.database.events in
      let rest : List StoredEvent = dropped after rows in
      let page : List StoredEvent = limited count rest in
      let within : (leb 1 count && leb count max_read_batch) ≡ true = ground arith in
      let numbered : IsNumbered version_of after rest =
        IsNumbered-after version_of after rows (intact.versions stream_id) in
      rw (
        named,
        within,
        opened,
        stream_rows-where stream_id (λ (r : StoredEvent). ltb after r.stream_version)
            store.database.events,
        rows_where-after version_of after rows (intact.versions stream_id),
        sorted-numbered version_of after rest numbered,
        events_from_rows-readable page (
            All-limited IsReadable count rest (
              All-dropped IsReadable after rows (All-stream_rows IsReadable stream_id _ readable))),
        require_contiguous-numbered version_of "version" page after
            (IsNumbered-limited version_of after count rest numbered),
      )

  -- Whatever the tables hold, a page that a read of the log returns has every sequence from the
  -- one after `after_sequence` on: a read never passes over an event that is missing.
  pub read_all-eq-ok :
      (store : Store) (after_sequence limit : ℤ) {records : List StoredEvent}
      → read_all sha256_hex loads store after_sequence limit ≡ ok records
      → (after : ℕ) × (after_sequence ≡ pos after) × IsNumbered sequence_of after records
  unfolding read_all require_nonnegative_integer
  read_all-eq-ok store (negsuc n) limit returns = cc
  read_all-eq-ok store (pos after) limit {records} returns =
      let (count, limited_to, h1) = >>=-eq-ok (require_read_limit limit) _ returns in
      let (u, opened, h2) = >>=-eq-ok (require_open store) _ h1 in
      let (page, read, h3) =
        >>=-eq-ok
          (events_from_rows sha256_hex loads (
            limited count
              (rows_where (λ (r : StoredEvent). ltb after r.sequence) store.database.events)))
          _ h2 in
      let (v, contiguous, h4) =
        >>=-eq-ok (require_contiguous sequence_of "sequence" page (suc after)) _ h3 in
      let same : page ≡ records = cc in
      (
        after,
        refl,
        subst (IsNumbered sequence_of after) same
            (require_contiguous-eq-ok sequence_of "sequence" page after contiguous),
      )
