-- ===== src/Store/Append/Rowed/Loop.antt =====
-- store/sqlite.py: what the loop of `append` leaves.
use comply_roll.Common.{
  ℕ, suc, ◌≡◌, refl, ap, sym, subst, ◌∙◌, String, List, [], ◌∷◌, ◌++◌, ltb, length, length-append,
  Never, arith,
}
use comply_roll.Errors.{ok, >>=-eq-ok, refuse_if, ok_injective, overflow_error}
use comply_roll.Store.Rows.{StoredEvent, Database, stream_rows}
use comply_roll.Store.Session.{and_then-eq-ok, and_then_check-eq-ok}
use comply_roll.Store.Append.{NewEvent, max_sqlite_integer, event_row, insert_event, append_events}
use comply_roll.Store.Intact.{IsIntact, Unused}
use comply_roll.Store.Json.{canonical_json_object}
use comply_roll.Instant.{to_utc}
use comply_roll.Store.Append.Rowed.{
  insert_event-eq-ok, with_event-IsIntact, length-stream_rows-own, append-nil,
}

append_one : {A : Type 0} (xs : List A) (x : A) (ys : List A) → (xs ++ x ∷ []) ++ ys ≡ xs ++ x ∷ ys
append_one [] x ys = refl
append_one (y ∷ xs) x ys = ap (λ l. y ∷ l) (append_one xs x ys)

module _ (sha256_hex : String → String) where
  event_row-keys :
      (stream_id : String) (version at : ℕ) (event : NewEvent) {row : StoredEvent}
      → event_row sha256_hex stream_id version at event ≡ ok row
      → (row.stream_id ≡ stream_id)
        × (row.stream_version ≡ version)
        × (row.event_id ≡ event.event_id)
  unfolding event_row
  event_row-keys stream_id version at event {row} returns =
      let (payload_json, h1, h2) =
        >>=-eq-ok (canonical_json_object event.payload "payload") _ returns in
      let (metadata_json, h3, h4) =
        >>=-eq-ok (canonical_json_object event.metadata "metadata") _ h2 in
      let (occurred_at, h5, h6) = >>=-eq-ok (to_utc event.occurred_at) _ h4 in
      let (u, bounded, h7) =
        >>=-eq-ok (refuse_if (ltb max_sqlite_integer event.event_version) overflow_error) _ h6 in
      let same = sym (ok_injective h7) in
      (
        ap (λ (r : StoredEvent). r.stream_id) same,
        ap (λ (r : StoredEvent). r.stream_version) same,
        ap (λ (r : StoredEvent). r.event_id) same,
      )

  -- One record for each event: the row of its columns, under the sequences from one past `start`
  -- and the versions from one past `reached`.
  abbrev pub AreWritten : String → ℕ → ℕ → ℕ → List NewEvent → List StoredEvent → Type 0
  AreWritten stream_id at start reached [] [] = Unit
  AreWritten stream_id at start reached [] (r ∷ rs) = Never
  AreWritten stream_id at start reached (e ∷ es) [] = Never
  AreWritten stream_id at start reached (e ∷ es) (r ∷ rs) =
      ((row : StoredEvent) × (event_row sha256_hex stream_id (suc reached) at e ≡ ok row)
        × (r ≡ record row { sequence = suc start }))
      × AreWritten stream_id at (suc start) (suc reached) es rs

  -- One round of the loop.
  pub row_lands :
      (stream_id : String) (at reached : ℕ) (e : NewEvent) (db : Database)
      {row stored : StoredEvent} {middle : Database}
      → IsIntact db
      → length (stream_rows stream_id db.events) ≡ reached
      → event_row sha256_hex stream_id (suc reached) at e ≡ ok row
      → insert_event row db ≡ (ok stored, middle)
      → (stored ≡ record row { sequence = suc (length db.events) })
        × (stored.stream_id ≡ stream_id)
        × (middle.events ≡ db.events ++ stored ∷ [])
        × IsIntact middle
        × (length (stream_rows stream_id middle.events) ≡ suc reached)
        × (middle.checkpoints ≡ db.checkpoints)
  unfolding append_events
  row_lands stream_id at reached e db {row} {stored} {middle} intact here made inserted =
      let (keyed, numbered, named) = event_row-keys stream_id (suc reached) at e made in
      let (as_row, step, free) = insert_event-eq-ok row db intact inserted in
      let own : stored.stream_id ≡ stream_id =
        ap (λ (r : StoredEvent). r.stream_id) as_row ∙ keyed in
      let next : stored.stream_version ≡ suc reached =
        ap (λ (r : StoredEvent). r.stream_version) as_row ∙ numbered in
      let grown : middle.events ≡ db.events ++ stored ∷ [] = ap (λ (d : Database). d.events) step in
      (
        as_row,
        own,
        grown,
        subst IsIntact (sym step) (
            with_event-IsIntact stored db intact (ap (λ (r : StoredEvent). r.sequence) as_row)
              (next
                ∙ ap suc (sym here)
                ∙ ap (λ s. suc (length (stream_rows s db.events))) (sym own))
              (subst (λ n. Unused n db.events) (sym (ap (λ (r : StoredEvent). r.event_id) as_row))
                free)),
        ap (λ rs. length (stream_rows stream_id rs)) grown
            ∙ length-stream_rows-own stream_id stored db.events own
            ∙ ap suc here,
        ap (λ (d : Database). d.checkpoints) step,
      )

  pub append_events-eq-ok :
      (stream_id : String) (at reached : ℕ) (events : List NewEvent) (db : Database)
      {records : List StoredEvent} {after : Database}
      → IsIntact db
      → length (stream_rows stream_id db.events) ≡ reached
      → append_events sha256_hex stream_id at reached events db ≡ (ok records, after)
      → (after.events ≡ db.events ++ records)
        × AreWritten stream_id at (length db.events) reached events records
        × IsIntact after
        × (after.checkpoints ≡ db.checkpoints)
  unfolding append_events
  append_events-eq-ok stream_id at reached [] db {records} {after} intact here returns =
      let none : records ≡ [] = cc in
      let same : after ≡ db = cc in
      subst
        (λ rs.
          (after.events ≡ db.events ++ rs)
          × AreWritten stream_id at (length db.events) reached [] rs
          × IsIntact after
          × (after.checkpoints ≡ db.checkpoints))
        (sym none)
        (
          ap (λ (d : Database). d.events) same ∙ sym (append-nil db.events),
          tt,
          subst IsIntact (sym same) intact,
          ap (λ (d : Database). d.checkpoints) same,
        )
  append_events-eq-ok stream_id at reached (e ∷ es) db {records} {after} intact here returns =
      let (row, made, h1) =
        and_then_check-eq-ok (event_row sha256_hex stream_id (suc reached) at e) db _ returns in
      let (stored, middle, inserted, h2) = and_then-eq-ok (insert_event row db) _ h1 in
      let (rest, last, ran, h3) =
        and_then-eq-ok (append_events sha256_hex stream_id at (suc reached) es middle) _ h2 in
      let (as_row, own, grown, whole, reached_next, kept) =
        row_lands stream_id at reached e db intact here made inserted in
      let longer : length middle.events ≡ suc (length db.events) =
        ap length grown ∙ length-append db.events (stored ∷ []) ∙ omega arith in
      let (events_after, written, intact_after, checkpoints_after) =
        append_events-eq-ok stream_id at (suc reached) es middle whole reached_next ran in
      let all : records ≡ stored ∷ rest = cc in
      let same : after ≡ last = cc in
      subst
        (λ rs.
          (after.events ≡ db.events ++ rs)
          × AreWritten stream_id at (length db.events) reached (e ∷ es) rs
          × IsIntact after
          × (after.checkpoints ≡ db.checkpoints))
        (sym all)
        (
          ap (λ (d : Database). d.events) same
              ∙ events_after
              ∙ ap (λ rs. rs ++ rest) grown
              ∙ append_one db.events stored rest,
          (
            (row, made, as_row),
            subst (λ n. AreWritten stream_id at n (suc reached) es rest) longer written,
          ),
          subst IsIntact (sym same) intact_after,
          ap (λ (d : Database). d.checkpoints) same ∙ checkpoints_after ∙ kept,
        )
