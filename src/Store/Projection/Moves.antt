-- ===== src/Store/Projection/Moves.antt =====
-- store/sqlite.py: how `advance_projection` and `reset_projection` move the checkpoints.
use comply_roll.Common.{
  ℕ, ◌≤◌, ◌≡◌, refl, ap, sym, subst, ◌∙◌, not, ◌==◌, String, List, length, arith, ltb, ℤ,
}
use comply_roll.Errors.{Result, ok, err, refuse_if, ◌>>◌, >>=-eq-ok, value_error}
use comply_roll.Instant.{Datetime, to_utc}
use comply_roll.Store.Rows.{Checkpoint, Database, latest_sequence, rows_where}
use comply_roll.Store.Session.{and_then_check-eq-ok, Store}
use comply_roll.Store.Intact.{IsIntact, latest_sequence-intact}
use comply_roll.Store.Append.Contract.{within-eq-ok}
use comply_roll.Store.Projection.Checkpoints.{
  All-upsert, All-rows_where, with_checkpoints-IsIntact, AgreeApart, current-upsert,
  current-without,
}
use comply_roll.Store.Projection.{
  ProjectionCheckpoint, current_projection_sequence, upsert_checkpoint, require_projection,
  advance_work, reset_work, reset_arguments, reset_checked, reset_projection,
}

require_projection-eq-ok :
    (name : String) (expected : ℕ) (db : Database) {u : Unit {0}}
    → require_projection name expected db ≡ ok u
    → current_projection_sequence name db ≡ expected
unfolding require_projection
require_projection-eq-ok name expected db h = ground (arith, h)

within_log :
    (last : ℕ) (db : Database) {u : Unit {0}}
    → IsIntact db
    → refuse_if (ltb (latest_sequence db.events) last) (value_error "last_sequence") ≡ ok u
    → last ≤ length db.events
within_log last db intact h = ground (arith, h, latest_sequence-intact db intact)

reset_checked-eq-ok :
    (store : Store) (name : String) (arguments : Result ℕ) {made : ProjectionCheckpoint}
    {after : Store}
    → reset_checked store name arguments ≡ (ok made, after)
    → (expected : ℕ) × (reset_work name expected store.database ≡ (ok made, after.database))
unfolding reset_checked
reset_checked-eq-ok store name (err raised) returns = cc
reset_checked-eq-ok store name (ok expected) returns =
    (expected, within-eq-ok store (reset_work name expected) returns)

pub advance_work-eq-ok :
    (clock : Datetime) (name : String) (expected last : ℕ) (db : Database)
    {made : ProjectionCheckpoint} {after : Database}
    → IsIntact db
    → advance_work clock name expected last db ≡ (ok made, after)
    → (current_projection_sequence name db ≡ expected)
      × (last ≤ length db.events)
      × (made.last_sequence ≡ last)
      × (current_projection_sequence name after ≡ last)
      × AgreeApart name db after
      × (after.events ≡ db.events)
      × IsIntact after
unfolding advance_work
advance_work-eq-ok clock name expected last db {made} {after} intact returns =
    let (u, checked, h1) =
      and_then_check-eq-ok
        (require_projection name expected db
          >> refuse_if (ltb (latest_sequence db.events) last) (value_error "last_sequence"))
        db _ returns in
    let (v, current, bounded) = >>=-eq-ok (require_projection name expected db) _ checked in
    let (at, read, h2) = and_then_check-eq-ok (to_utc clock) db _ h1 in
    let row : Checkpoint = record {
      projection_name = name;
      last_sequence = last;
      updated_at = at;
    } in
    let same : after ≡ record db { checkpoints = upsert_checkpoint row db.checkpoints } = cc in
    let (own, others) = current-upsert name row db refl in
    (
      require_projection-eq-ok name expected db current,
      within_log last db intact bounded,
      cc,
      ap (current_projection_sequence name) same ∙ own,
      λ other apart. ap (current_projection_sequence other) same ∙ others other apart,
      ap (λ (d : Database). d.events) same,
      subst IsIntact (sym same) (
          with_checkpoints-IsIntact (upsert_checkpoint row db.checkpoints) db intact (
            All-upsert (λ (c : Checkpoint). c.last_sequence ≤ length db.events) row db.checkpoints
              (within_log last db intact bounded) intact.checkpoints)),
    )

pub reset_work-eq-ok :
    (name : String) (expected : ℕ) (db : Database) {made : ProjectionCheckpoint} {after : Database}
    → IsIntact db
    → reset_work name expected db ≡ (ok made, after)
    → (current_projection_sequence name db ≡ expected)
      × (current_projection_sequence name after ≡ 0)
      × AgreeApart name db after
      × (after.events ≡ db.events)
      × IsIntact after
unfolding reset_work
reset_work-eq-ok name expected db {made} {after} intact returns =
    let (u, current, h1) =
      and_then_check-eq-ok (require_projection name expected db) db _ returns in
    let other_rows : List Checkpoint =
      rows_where (λ (c : Checkpoint). not (c.projection_name == name)) db.checkpoints in
    let same : after ≡ record db { checkpoints = other_rows } = cc in
    let (own, others) = current-without name db in
    (
      require_projection-eq-ok name expected db current,
      ap (current_projection_sequence name) same ∙ own,
      λ other apart. ap (current_projection_sequence other) same ∙ others other apart,
      ap (λ (d : Database). d.events) same,
      subst IsIntact (sym same) (
          with_checkpoints-IsIntact other_rows db intact (
            All-rows_where (λ (c : Checkpoint). c.last_sequence ≤ length db.events) _ db.checkpoints
              intact.checkpoints)),
    )

pub reset_projection-eq-ok :
    (store : Store) (name : String) (expected_sequence : ℤ) {made : ProjectionCheckpoint}
    {after : Store}
    → IsIntact store.database
    → reset_projection store name expected_sequence ≡ (ok made, after)
    → (current_projection_sequence name after.database ≡ 0)
      × AgreeApart name store.database after.database
      × (after.database.events ≡ store.database.events)
      × IsIntact after.database
unfolding reset_projection
reset_projection-eq-ok store name expected_sequence {made} {after} intact returns =
    let (expected, worked) =
      reset_checked-eq-ok store name (reset_arguments store name expected_sequence) returns in
    let (current, own, others, log, whole) =
      reset_work-eq-ok name expected store.database intact worked in
    (own, others, log, whole)
