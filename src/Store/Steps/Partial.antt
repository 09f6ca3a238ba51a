-- ===== src/Store/Steps/Partial.antt =====
-- store/sqlite.py: what the work of a transaction has written wherever it stops.
use comply_roll.Common.{
  ℕ, suc, ◌≤◌, ◌≡◌, refl, ap, sym, subst, ◌∙◌, String, List, [], ◌∷◌, length, Bool-cases, inl, inr,
  leb, ltb,
}
use comply_roll.Errors.{Error, Result, ok, err, refuse_if, ◌>>◌, value_error}
use comply_roll.Instant.{Datetime, to_utc}
use comply_roll.Store.Arguments.{supported_schema_version}
use comply_roll.Store.Rows.{StoredEvent, Database, is_taken, stream_rows, latest_sequence}
use comply_roll.Store.Session.{Outcome, and_then}
use comply_roll.Store.Append.{
  NewEvent, insert_event, event_row, append_events, append_work, mark_schema, require_appendable,
  require_own_schema, require_no_record_ahead,
}
use comply_roll.Store.Append.Contract.{require_appendable-eq-ok}
use comply_roll.Store.Append.Marked.{mark_schema-eq-ok}
use comply_roll.Store.Append.Rowed.Loop.{row_lands}
use comply_roll.Store.Intact.{IsIntact, current_stream_version-intact}
use comply_roll.Store.Projection.{advance_work, reset_work, require_projection}
use comply_roll.Store.Projection.Moves.{advance_work-eq-ok, reset_work-eq-ok}
use comply_roll.Store.Steps.{Grows, Grows-refl, Grows-same, Grows-trans, append-nil}

-- A property of an outcome, by the two ways a statement ends.
all_ways {ℓ κ} :
    {A : Type ℓ} {B : Type κ} (P : Outcome B → Type 0) (call : Outcome A)
    (next : A → Database → Outcome B)
    → ((raised : Error) (after : Database) → call ≡ (err raised, after) → P (err raised, after))
    → ((made : A) (middle : Database) → call ≡ (ok made, middle) → P (next made middle))
    → P (and_then call next)
all_ways P (err raised, after) next refused goes_on = refused raised after refl
all_ways P (ok made, middle) next refused goes_on = goes_on made middle refl

-- The same of a check, which leaves the database.
all_ways_check {ℓ κ} :
    {A : Type ℓ} {B : Type κ} (P : Outcome B → Type 0) (check : Result A) (db : Database)
    (next : A → Database → Outcome B)
    → ((raised : Error) → P (err raised, db))
    → ((made : A) → check ≡ ok made → P (next made db))
    → P (and_then (check, db) next)
all_ways_check P (err raised) db next refused goes_on = refused raised
all_ways_check P (ok made) db next refused goes_on = goes_on made refl

-- The database is left where an exception is raised.
abbrev KeepsOnError {ℓ} : {A : Type ℓ} → Database → Outcome A → Type 0
KeepsOnError db (err raised, after) = after ≡ db
KeepsOnError db (ok made, after) = Unit

abbrev GrowsTo {ℓ} : {A : Type ℓ} → Database → Outcome A → Type 0
GrowsTo db outcome = Grows db outcome.1

-- Where it is left at an exception, only the other way is left to show.
either_way {ℓ} :
    {A : Type ℓ} (db : Database) (outcome : Outcome A)
    → IsIntact db
    → KeepsOnError db outcome
    → ((made : A) (after : Database) → outcome ≡ (ok made, after) → Grows db after)
    → GrowsTo db outcome
either_way db (err raised, after) intact keeps goes_on = Grows-same db after intact keeps
either_way db (ok made, after) intact keeps goes_on = goes_on made after refl

insert_event-keeps : (row : StoredEvent) (db : Database) → KeepsOnError db (insert_event row db)
unfolding insert_event
insert_event-keeps row db =
    elim (Bool-cases (is_taken row.event_id row.stream_id row.stream_version db.events)) [
      | inl e ↦ rw e refl
      | inr e ↦ rw e tt
    ]

keeps {ℓ} :
    {A : Type ℓ} (db : Database) (outcome : Outcome A) {raised : Error} {after : Database}
    → KeepsOnError db outcome
    → outcome ≡ (err raised, after)
    → after ≡ db
keeps db (err given, left) h e = sym (ap (λ p. p.1) e) ∙ h
keeps db (ok made, left) h e = cc

mark_schema-keeps :
    (clock : Datetime) (required : ℕ) (db : Database)
    → KeepsOnError db (mark_schema clock required db)
unfolding mark_schema
mark_schema-keeps clock required db =
    all_ways_check (KeepsOnError db) (require_own_schema db) db _ (λ raised. refl)
      λ made own. elim (Bool-cases (leb required db.user_version)) [
        | inl e ↦ rw e tt
        | inr e ↦ rw e (
            all_ways_check (KeepsOnError db) (require_no_record_ahead db) db _ (λ raised. refl)
              λ none_ahead h.
                all_ways_check (KeepsOnError db) (to_utc clock) db _ (λ raised. refl)
                  λ applied_at read. tt)
      ]

mark_schema-Grows :
    (clock : Datetime) (required : ℕ) (db : Database)
    → IsIntact db
    → required ≤ supported_schema_version
    → GrowsTo db (mark_schema clock required db)
mark_schema-Grows clock required db intact few =
    either_way db (mark_schema clock required db) intact (mark_schema-keeps clock required db)
      λ made after returns.
        let (whole, events, checkpoints) = mark_schema-eq-ok clock required db intact few returns in
        (whole, ([], events ∙ sym (append-nil db.events)))

advance_work-keeps :
    (clock : Datetime) (name : String) (expected last : ℕ) (db : Database)
    → KeepsOnError db (advance_work clock name expected last db)
unfolding advance_work
advance_work-keeps clock name expected last db =
    all_ways_check (KeepsOnError db)
      (require_projection name expected db
        >> refuse_if (ltb (latest_sequence db.events) last) (value_error "last_sequence"))
      db _ (λ raised. refl)
      λ made h. all_ways_check (KeepsOnError db) (to_utc clock) db _ (λ raised. refl) λ at read. tt

pub advance_work-Grows :
    (clock : Datetime) (name : String) (expected last : ℕ) (db : Database)
    → IsIntact db
    → GrowsTo db (advance_work clock name expected last db)
advance_work-Grows clock name expected last db intact =
    either_way db (advance_work clock name expected last db) intact
      (advance_work-keeps clock name expected last db)
      λ made after returns.
        let (current, few, answer, own, others, log, whole) =
          advance_work-eq-ok clock name expected last db intact returns in
        (whole, ([], log ∙ sym (append-nil db.events)))

reset_work-keeps :
    (name : String) (expected : ℕ) (db : Database) → KeepsOnError db (reset_work name expected db)
unfolding reset_work
reset_work-keeps name expected db =
    all_ways_check (KeepsOnError db) (require_projection name expected db) db _ (λ raised. refl)
      λ made h. tt

pub reset_work-Grows :
    (name : String) (expected : ℕ) (db : Database)
    → IsIntact db
    → GrowsTo db (reset_work name expected db)
reset_work-Grows name expected db intact =
    either_way db (reset_work name expected db) intact (reset_work-keeps name expected db)
      λ made after returns.
        let (current, own, others, log, whole) = reset_work-eq-ok name expected db intact returns in
        (whole, ([], log ∙ sym (append-nil db.events)))

subst_outcome {ℓ} :
    {A : Type ℓ} (db : Database) (outcome : Outcome A) {result : Result A} {after : Database}
    → GrowsTo db outcome
    → outcome ≡ (result, after)
    → Grows db after
subst_outcome db outcome {result} {after} h e = subst (Grows db) (ap (λ p. p.1) e) h

module _ (sha256_hex : String → String) where
  -- The loop of `append` keeps what it has inserted where an event is refused.
  append_events-Grows :
      (stream_id : String) (at reached : ℕ) (events : List NewEvent) (db : Database)
      → IsIntact db
      → length (stream_rows stream_id db.events) ≡ reached
      → GrowsTo db (append_events sha256_hex stream_id at reached events db)
  unfolding append_events
  append_events-Grows stream_id at reached [] db intact here = Grows-refl db intact
  append_events-Grows stream_id at reached (e ∷ es) db intact here =
      all_ways_check (GrowsTo db) (event_row sha256_hex stream_id (suc reached) at e) db _
        (λ raised. Grows-refl db intact)
        λ row made.
          all_ways (GrowsTo db) (insert_event row db) _
            (λ raised after refused.
              Grows-same db after intact
                (keeps db (insert_event row db) (insert_event-keeps row db) refused))
            λ stored middle inserted.
              let (as_row, own, grown, whole, reached_next, kept) =
                row_lands sha256_hex stream_id at reached e db intact here made inserted in
              let first : Grows db middle = (whole, (stored ∷ [], grown)) in
              let onward =
                append_events-Grows stream_id at (suc reached) es middle whole reached_next in
              all_ways (GrowsTo db) (append_events sha256_hex stream_id at (suc reached) es middle)
                _
                (λ raised after ran.
                  Grows-trans db middle after first (subst_outcome middle _ onward ran))
                λ appended after ran.
                  Grows-trans db middle after first (subst_outcome middle _ onward ran)

  pub append_work-Grows :
      (marked_at clock : Datetime) (stream_id : String) (pending : List NewEvent)
      (expected required : ℕ) (db : Database)
      → IsIntact db
      → required ≤ supported_schema_version
      → GrowsTo db (append_work sha256_hex marked_at clock stream_id pending expected required db)
  unfolding append_work
  append_work-Grows marked_at clock stream_id pending expected required db intact few =
      all_ways_check (GrowsTo db) (require_appendable stream_id expected db) db _
        (λ raised. Grows-refl db intact)
        λ made checked.
          all_ways (GrowsTo db) (mark_schema marked_at required db) _
            (λ raised after refused. Grows-same db after intact (
              keeps db (mark_schema marked_at required db) (mark_schema-keeps marked_at required db)
                refused))
            λ u marked ran.
              let (whole, events, checkpoints) =
                mark_schema-eq-ok marked_at required db intact few ran in
              let first : Grows db marked = (whole, ([], events ∙ sym (append-nil db.events))) in
              all_ways_check (GrowsTo db) (to_utc clock) marked _ (λ raised. first)
                λ at read. Grows-trans db marked _ first (
                  append_events-Grows stream_id at expected pending marked whole (
                    ap (λ rs. length (stream_rows stream_id rs)) events
                    ∙ sym (current_stream_version-intact stream_id db intact)
                    ∙ require_appendable-eq-ok stream_id expected db checked))
