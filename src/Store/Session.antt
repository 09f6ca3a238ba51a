-- ===== src/Store/Session.antt =====
-- store/sqlite.py: the store object, and the transactions on its connection. Work inside a
-- transaction returns with the database as it left it, also where it raises; the exit of the
-- block keeps that database or rolls it back. A failure of SQLite itself is not in the model.
use comply_roll.Common.{◌≡◌, refl, ℕ, Bool, if◌then◌else◌, not, ltb}
use comply_roll.Errors.{Result, ok, err, refuse_if, ◌>>◌, event_store_error}
use comply_roll.Store.Rows.{Database}

-- What an exception leaves is the database at that point.
abbrev pub Outcome {ℓ} : Type ℓ → Type ℓ
Outcome A = Result A × Database

-- A check reads the database and does not change it.
abbrev pub checking {ℓ} : {A : Type ℓ} → Result A → Database → Outcome A
checking check db = (check, db)

-- The statements after one.
abbrev pub and_then {ℓ κ} :
    {A : Type ℓ} {B : Type κ} → Outcome A → (A → Database → Outcome B) → Outcome B
and_then (err raised, db) next = (err raised, db)
and_then (ok made, db) next = next made db

pub and_then-eq-ok {ℓ κ} :
    {A : Type ℓ} {B : Type κ} (call : Outcome A) (next : A → Database → Outcome B) {made : B}
    {after : Database}
    → and_then call next ≡ (ok made, after)
    → (given : A) × (middle : Database) × (call ≡ (ok given, middle))
      × (next given middle ≡ (ok made, after))
and_then-eq-ok (err raised, db) next returns = cc
and_then-eq-ok (ok given, db) next returns = (given, db, refl, returns)

-- The same after a check, which leaves the database.
pub and_then_check-eq-ok {ℓ κ} :
    {A : Type ℓ} {B : Type κ} (check : Result A) (db : Database) (next : A → Database → Outcome B)
    {made : B} {after : Database}
    → and_then (check, db) next ≡ (ok made, after)
    → (given : A) × (check ≡ ok given) × (next given db ≡ (ok made, after))
and_then_check-eq-ok (err raised) db next returns = cc
and_then_check-eq-ok (ok given) db next returns = (given, refl, returns)

pub record Store : Type 0 where
  pub is_open : Bool
  pub transaction_depth : ℕ
  pub database : Database

unfoldable pub require_open : Store → Result (Unit {0})
require_open store = refuse_if (not store.is_open) (event_store_error "event store is closed")

abbrev pub kept_or_rolled_back {ℓ} : {A : Type ℓ} → Bool → Database → Outcome A → Outcome A
kept_or_rolled_back joined db (ok made, after) = (ok made, after)
kept_or_rolled_back joined db (err raised, after) = (err raised, if joined then after else db)

-- `_write_transaction` around a block
unfoldable pub write_transaction {ℓ} :
    {A : Type ℓ} → Bool → Database → (Database → Outcome A) → Outcome A
write_transaction joined db work = kept_or_rolled_back joined db (work db)

-- `_transaction`: joined inside a `transaction()` block
abbrev pub in_store {ℓ} : {A : Type ℓ} → Store → Outcome A → Result A × Store
in_store store (made, db) = (made, record store { database = db })

unfoldable pub within {ℓ} : {A : Type ℓ} → Store → (Database → Outcome A) → Result A × Store
unfolding write_transaction
within store work =
    in_store store (write_transaction (ltb 0 store.transaction_depth) store.database work)

abbrev pub left_block {ℓ} : {A : Type ℓ} → Store → Result A × Store → Result A × Store
left_block store (ok made, inner) = (ok made, record store { database = inner.database })
left_block store (err raised, inner) = (err raised, store)

-- The block, once the store lets it begin.
unfoldable pub run_block {ℓ} :
    {A : Type ℓ} → Store → (Store → Result A × Store) → Result (Unit {0}) → Result A × Store
run_block store block (err raised) = (err raised, store)
run_block store block (ok _) = left_block store (block (record store { transaction_depth = 1 }))

-- `transaction()`: the block runs on the store one level deeper, commits when it ends and is
-- rolled back when it raises.
unfoldable pub transaction {ℓ} :
    {A : Type ℓ} → Store → (Store → Result A × Store) → Result A × Store
unfolding require_open run_block
transaction store block = run_block store block (
    refuse_if (ltb 0 store.transaction_depth) (event_store_error "already inside a transaction")
    >> require_open store)
