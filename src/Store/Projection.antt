-- ===== src/Store/Projection.antt =====
-- store/sqlite.py: the checkpoints of the projections, which move by compare-and-swap.
pub mod Checkpoints
pub mod Moves
use comply_roll.Common.{
  ℕ, zero, suc, Bool, true, false, not, ◌==◌, String, List, [], ◌∷◌, Option, none, some,
  if◌then◌else◌, nat_eqb, ltb, ℤ,
}
use comply_roll.Errors.{
  Result, ok, err, refuse_if, ◌>>◌, ◌>>=◌, value_error, projection_concurrency,
}
use comply_roll.Instant.{Datetime, to_utc}
use comply_roll.Store.Rows.{Checkpoint, Database, latest_sequence, highest_of, rows_where}
use comply_roll.Store.Arguments.{require_name, require_nonnegative_integer}
use comply_roll.Store.Session.{Outcome, and_then, Store, require_open, within, write_transaction}

pub record ProjectionCheckpoint : Type 0 where
  pub name : String
  pub last_sequence : ℕ
  pub updated_at : Option ℕ

-- The row of a projection, the table's key.
unfoldable pub checkpoint_row : String → List Checkpoint → Option Checkpoint
checkpoint_row name [] = none
checkpoint_row name (c ∷ rows) =
    if c.projection_name == name then some c else checkpoint_row name rows

-- `get_projection_checkpoint`
unfoldable pub get_projection_checkpoint : Store → String → Result ProjectionCheckpoint
unfolding require_name require_open checkpoint_row
get_projection_checkpoint store name = do
  _ ← require_name name "projection_name"
  _ ← require_open store
  elim (checkpoint_row name store.database.checkpoints) [
    | none ↦ ok (record { name = name; last_sequence = 0; updated_at = none })
    | some c ↦ ok (record {
      name = c.projection_name;
      last_sequence = c.last_sequence;
      updated_at = some c.updated_at;
    })
  ]

abbrev pub or_start : Option Checkpoint → ℕ
or_start none = 0
or_start (some c) = c.last_sequence

-- `_current_projection_sequence`
unfoldable pub current_projection_sequence : String → Database → ℕ
unfolding checkpoint_row
current_projection_sequence name db = or_start (checkpoint_row name db.checkpoints)

-- `INSERT … ON CONFLICT(projection_name) DO UPDATE`
unfoldable pub upsert_checkpoint : Checkpoint → List Checkpoint → List Checkpoint
upsert_checkpoint row [] = row ∷ []
upsert_checkpoint row (c ∷ rows) =
    if c.projection_name == row.projection_name then row ∷ rows else c ∷ upsert_checkpoint row rows

-- The compare of the compare-and-swap.
unfoldable pub require_projection : String → ℕ → Database → Result (Unit {0})
unfolding current_projection_sequence
require_projection name expected db =
    refuse_if (not (nat_eqb (current_projection_sequence name db) expected))
      (projection_concurrency name)

unfoldable pub advance_work : Datetime → String → ℕ → ℕ → Database → Outcome ProjectionCheckpoint
unfolding require_projection latest_sequence to_utc upsert_checkpoint
advance_work clock name expected last db =
    and_then
      (
        require_projection name expected db
            >> refuse_if (ltb (latest_sequence db.events) last) (value_error "last_sequence"),
        db,
      )
      λ checked db.
        and_then (to_utc clock, db)
          λ at db. (
            ok (record { name = name; last_sequence = last; updated_at = some at }),
            record db {
              checkpoints =
                  upsert_checkpoint
                    (record { projection_name = name; last_sequence = last; updated_at = at })
                    db.checkpoints;
            },
          )

unfoldable pub reset_work : String → ℕ → Database → Outcome ProjectionCheckpoint
unfolding require_projection rows_where
reset_work name expected db =
    and_then (require_projection name expected db, db)
      λ checked db. (
        ok (record { name = name; last_sequence = 0; updated_at = none }),
        record db {
          checkpoints =
              rows_where (λ (c : Checkpoint). not (c.projection_name == name)) db.checkpoints;
        },
      )

-- The numbers of `advance_projection`, once its arguments are checked.
unfoldable pub advance_arguments : Store → String → ℤ → ℤ → Result (ℕ × ℕ)
unfolding require_name require_nonnegative_integer require_open
advance_arguments store name expected_sequence last_sequence = do
  _ ← require_name name "projection_name"
  expected ← require_nonnegative_integer expected_sequence "expected_sequence"
  last ← require_nonnegative_integer last_sequence "last_sequence"
  _ ← refuse_if (ltb last expected) (value_error "last_sequence")
  _ ← require_open store
  ok (expected, last)

unfoldable pub advance_checked :
    Datetime → Store → String → Result (ℕ × ℕ) → Result ProjectionCheckpoint × Store
unfolding advance_work within
advance_checked clock store name (err raised) = (err raised, store)
advance_checked clock store name (ok (expected, last)) =
    within store (advance_work clock name expected last)

unfoldable pub advance_projection :
    Datetime → Store → String → ℤ → ℤ → Result ProjectionCheckpoint × Store
unfolding advance_checked advance_arguments
advance_projection clock store name expected_sequence last_sequence =
    advance_checked clock store name (advance_arguments store name expected_sequence last_sequence)

unfoldable pub reset_arguments : Store → String → ℤ → Result ℕ
unfolding require_name require_nonnegative_integer require_open
reset_arguments store name expected_sequence = do
  _ ← require_name name "projection_name"
  expected ← require_nonnegative_integer expected_sequence "expected_sequence"
  _ ← require_open store
  ok expected

unfoldable pub reset_checked : Store → String → Result ℕ → Result ProjectionCheckpoint × Store
unfolding reset_work within
reset_checked store name (err raised) = (err raised, store)
reset_checked store name (ok expected) = within store (reset_work name expected)

unfoldable pub reset_projection : Store → String → ℤ → Result ProjectionCheckpoint × Store
unfolding reset_checked reset_arguments
reset_projection store name expected_sequence =
    reset_checked store name (reset_arguments store name expected_sequence)
