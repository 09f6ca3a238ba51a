-- ===== src/Repository/Whole.antt =====
-- events/repository.py: what the reads of the whole log and of a whole stream return.
use comply_roll.Common.{
  ℕ, zero, suc, ◌+◌, ◌≤◌, ◌<◌, ◌≡◌, refl, ap, sym, subst, ◌∙◌, true, String, List, [], ◌∷◌, ◌++◌,
  length, All, arith, ltb, Bool-cases, inl, inr,
}
use comply_roll.Errors.{Result, ok, ◌>>=◌}
use comply_roll.Store.Rows.{StoredEvent, stream_rows, limited, rows_where, in_stream}
use comply_roll.Store.Arguments.{require_name}
use comply_roll.Store.Json.{Json}
use comply_roll.Store.Session.{Store}
use comply_roll.Store.Numbered.{IsNumbered}
use comply_roll.Store.Intact.{IsIntact, sequence_of, version_of}
use comply_roll.Store.Read.Pages.{dropped, IsNumbered-after, IsNumbered-limited}
use comply_roll.Store.Read.Returned.{IsReadable, read_all-page, read_stream-page}
use comply_roll.Repository.Pages.{read_page_size, last_of, read_pages, read_all, read_stream}

last_of-numbered :
    (column : StoredEvent → ℕ) (start : ℕ) (page : List StoredEvent)
    → IsNumbered column start page
    → last_of column start page ≡ start + length page
last_of-numbered column start [] h = omega arith
last_of-numbered column start (r ∷ page) h =
    ap (λ n. last_of column n page) h.0 ∙ last_of-numbered column (suc start) page h.1 ∙ omega arith

-- A page that is not full is the last.
limited-short : (n : ℕ) (rs : List StoredEvent) → length (limited n rs) < n → limited n rs ≡ rs
unfolding limited
limited-short zero rs h = absurd (omega (arith, h))
limited-short (suc n) [] h = refl
limited-short (suc n) (r ∷ rs) h = ap (λ l. r ∷ l) (limited-short n rs (omega (arith, h)))

limited-dropped :
    (n : ℕ) (rs : List StoredEvent)
    → n ≤ length (limited n rs)
    → (limited n rs ++ dropped n rs ≡ rs)
      × (length (limited n rs) ≡ n)
      × (n + length (dropped n rs) ≡ length rs)
unfolding limited
limited-dropped zero rs h = (refl, refl, omega arith)
limited-dropped (suc n) [] h = absurd (omega (arith, h))
limited-dropped (suc n) (r ∷ rs) h =
    let (whole, few, rest) = limited-dropped n rs (omega (arith, h)) in
    (ap (λ l. r ∷ l) whole, ap suc few, omega (arith, rest))

dropped-dropped : (m n : ℕ) (rs : List StoredEvent) → dropped n (dropped m rs) ≡ dropped (m + n) rs
dropped-dropped zero n rs = ap (λ k. dropped k rs) (omega arith)
dropped-dropped (suc m) n [] = dropped-none n ∙ sym (dropped-none (suc m + n))
  where
    dropped-none : (k : ℕ) → dropped {A = StoredEvent} k [] ≡ []
    dropped-none zero = refl
    dropped-none (suc k) = refl
dropped-dropped (suc m) n (r ∷ rs) =
    let same : suc (m + n) ≡ suc m + n = omega arith in
    dropped-dropped m n rs ∙ ap (λ k. dropped k (r ∷ rs)) same

-- The loop returns what is left, for pages of numbered rows and fuel above their number.
read_pages-whole :
    (page_after : ℕ → Result (List StoredEvent)) (column : StoredEvent → ℕ)
    (rows : List StoredEvent) (fuel after : ℕ)
    → IsNumbered column 0 rows
    → ((n : ℕ) → page_after n ≡ ok (limited read_page_size (dropped n rows)))
    → length (dropped after rows) < fuel
    → read_pages page_after column fuel after ≡ ok (dropped after rows)
unfolding read_pages
read_pages-whole page_after column rows zero after numbered pages enough =
    absurd (omega (arith, enough))
read_pages-whole page_after column rows (suc fuel) after numbered pages enough =
    let rest : List StoredEvent = dropped after rows in
    let page : List StoredEvent = limited read_page_size rest in
    elim (Bool-cases (ltb (length page) read_page_size)) [
      | inl e ↦
          rw (pages after, ◌>>=◌, e) (ap ok (limited-short read_page_size rest (ground (arith, e))))
      | inr e ↦
          let (whole, full, left) = limited-dropped read_page_size rest (ground (arith, e)) in
          let last : last_of column after page ≡ after + read_page_size =
            last_of-numbered column after page (
              IsNumbered-limited column after read_page_size rest
                (IsNumbered-after column after rows numbered))
            ∙ ap (λ n. after + n) full in
          let next : dropped read_page_size rest ≡ dropped (after + read_page_size) rows =
            dropped-dropped after read_page_size rows in
          let read : read_pages page_after column fuel (after + read_page_size)
              ≡ ok (dropped (after + read_page_size) rows) =
            read_pages-whole page_after column rows fuel (after + read_page_size) numbered pages
              (subst (λ rs. length rs < fuel) next (omega (arith, enough, left))) in
          rw (pages after, ◌>>=◌, e, last, read) (ap ok (ap (λ rs. page ++ rs) (sym next) ∙ whole))
    ]

length-stream_rows :
    (stream_id : String) (rs : List StoredEvent) → length (stream_rows stream_id rs) ≤ length rs
unfolding stream_rows rows_where
length-stream_rows stream_id [] = omega arith
length-stream_rows stream_id (r ∷ rs) = elim (Bool-cases (in_stream stream_id r)) [
  | inl e ↦ rw e (omega (arith, length-stream_rows stream_id rs))
  | inr e ↦ rw e (omega (arith, length-stream_rows stream_id rs))
]

module _ (sha256_hex : String → String) (loads : String → Result Json) where
  read_all-whole :
      (store : Store)
      → IsIntact store.database
      → All (IsReadable sha256_hex loads) store.database.events
      → store.is_open ≡ true
      → read_all sha256_hex loads store ≡ ok store.database.events
  unfolding read_all
  read_all-whole store intact readable opened =
      read_pages-whole _ sequence_of store.database.events (suc (length store.database.events)) 0
        intact.sequences
        (λ n.
          read_all-page sha256_hex loads store n read_page_size intact readable opened (omega arith)
            (omega arith))
        (omega arith)

  read_stream-whole :
      (store : Store) (stream_id : String)
      → require_name stream_id "stream_id" ≡ ok tt
      → IsIntact store.database
      → All (IsReadable sha256_hex loads) store.database.events
      → store.is_open ≡ true
      → read_stream sha256_hex loads store stream_id
        ≡ ok (stream_rows stream_id store.database.events)
  unfolding read_stream
  read_stream-whole store stream_id named intact readable opened =
      read_pages-whole _ version_of (stream_rows stream_id store.database.events)
        (suc (length store.database.events)) 0 (intact.versions stream_id)
        (λ n.
          read_stream-page sha256_hex loads store stream_id n read_page_size named intact readable
            opened (omega arith) (omega arith))
        (omega (arith, length-stream_rows stream_id store.database.events))

  -- On an open store with an intact database whose rows can be read, the loops over pages end. The
  -- one over the log returns every event once, in the order of the sequences; the one over a
  -- stream, for a name that passes its check, exactly the events of the log on that stream, in the
  -- order of the log.
  pub reads-whole :
      (store : Store) (stream_id : String)
      → require_name stream_id "stream_id" ≡ ok tt
      → IsIntact store.database
      → All (IsReadable sha256_hex loads) store.database.events
      → store.is_open ≡ true
      → (read_all sha256_hex loads store ≡ ok store.database.events)
        × (read_stream sha256_hex loads store stream_id
            ≡ ok (stream_rows stream_id store.database.events))
  reads-whole store stream_id named intact readable opened = (
    read_all-whole store intact readable opened,
    read_stream-whole store stream_id named intact readable opened,
  )
