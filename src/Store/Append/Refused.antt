-- ===== src/Store/Append/Refused.antt =====
-- store/sqlite.py: what a call of `append`, or a `transaction()` block, that raises leaves.
use comply_roll.Common.{ℕ, ◌≡◌, ◌≢◌, ap, sym, false, String, List, arith, ltb, nat_eqb, ℤ}
use comply_roll.Errors.{
  Error, Result, ok, err, ◌>>◌, refuse_if, event_concurrency, event_store_error,
}
use comply_roll.Instant.{Datetime}
use comply_roll.Store.Rows.{StoredEvent, Database, current_stream_version}
use comply_roll.Store.Session.{
  Outcome, Store, within, write_transaction, kept_or_rolled_back, in_store, left_block, transaction,
  run_block, require_open,
}
use comply_roll.Store.History.{require_version}
use comply_roll.Store.Append.{
  NewEvent, require_appendable, append, append_checked, append_arguments, append_work,
}
use comply_roll.Store.Intact.{IsIntact, counter-passes, history-passes}

require_appendable-stale :
    (stream_id : String) (expected : ℕ) (db : Database)
    → IsIntact db
    → current_stream_version stream_id db.events ≢ expected
    → require_appendable stream_id expected db ≡ err (event_concurrency stream_id)
unfolding require_appendable require_version
require_appendable-stale stream_id expected db intact stale =
    let differs : nat_eqb (current_stream_version stream_id db.events) expected ≡ false =
      ground (arith, stale) in
    rw (counter-passes db intact, history-passes stream_id db intact, differs)

pub within-eq-err :
    {A : Type 0} (store : Store) (work : Database → Outcome A) {raised : Error} {after : Store}
    → store.transaction_depth ≡ 0
    → within store work ≡ (err raised, after)
    → after ≡ store
unfolding within write_transaction
within-eq-err {A} store work {raised} {after} outside returns =
    let alone : ltb 0 store.transaction_depth ≡ false = ground (arith, outside) in
    split (work store.database) (rw alone at returns)
  where
    split :
        (left : Outcome A)
        → in_store store (kept_or_rolled_back false store.database left) ≡ (err raised, after)
        → after ≡ store
    split (ok made, db) h = cc
    split (err given, db) h = sym (ap (λ (p : Result A × Store). p.1) h)

-- A `transaction()` block that raises leaves the store as it was, whatever the block did before.
pub transaction-eq-err :
    {A : Type 0} (store : Store) (block : Store → Result A × Store) {raised : Error} {after : Store}
    → transaction store block ≡ (err raised, after)
    → after ≡ store
unfolding transaction run_block
transaction-eq-err {A} store block {raised} {after} returns =
    entered
      (refuse_if (ltb 0 store.transaction_depth) (event_store_error "already inside a transaction")
        >> require_open store)
      returns
  where
    ended : (left : Result A × Store) → left_block store left ≡ (err raised, after) → after ≡ store
    ended (ok made, inner) h = cc
    ended (err given, inner) h = sym (ap (λ (p : Result A × Store). p.1) h)

    entered :
        (check : Result (Unit {0}))
        → run_block store block check ≡ (err raised, after)
        → after ≡ store
    entered (err given) h = sym (ap (λ (p : Result A × Store). p.1) h)
    entered (ok u) h = ended (block (record store { transaction_depth = 1 })) h

-- A block that ends commits the database that it reached.
pub transaction-eq-ok :
    {A : Type 0} (store : Store) (block : Store → Result A × Store) {made : A} {after : Store}
    → transaction store block ≡ (ok made, after)
    → (inner : Store) × (block (record store { transaction_depth = 1 }) ≡ (ok made, inner))
      × (after.database ≡ inner.database)
unfolding transaction run_block
transaction-eq-ok {A} store block {made} {after} returns =
    entered
      (refuse_if (ltb 0 store.transaction_depth) (event_store_error "already inside a transaction")
        >> require_open store)
      returns
  where
    ended :
        (left : Result A × Store)
        → left_block store left ≡ (ok made, after)
        → (inner : Store) × (left ≡ (ok made, inner)) × (after.database ≡ inner.database)
    ended (err given, inner) h = cc
    ended (ok given, inner) h =
        let same : given ≡ made = cc in
        (inner, cc, sym (ap (λ (p : Result A × Store). p.1.database) h))

    entered :
        (check : Result (Unit {0}))
        → run_block store block check ≡ (ok made, after)
        → (inner : Store) × (block (record store { transaction_depth = 1 }) ≡ (ok made, inner))
          × (after.database ≡ inner.database)
    entered (err given) h = cc
    entered (ok u) h = ended (block (record store { transaction_depth = 1 })) h

module _ (sha256_hex : String → String) where
  -- An append that raises outside a `transaction()` block leaves the store as it was: no event of
  -- the batch, no migration record and no marker is kept.
  pub append-eq-err :
      (marked_at clock : Datetime) (store : Store) (stream_id : String) (pending : List NewEvent)
      (expected_version requires_schema : ℤ) {raised : Error} {after : Store}
      → store.transaction_depth ≡ 0
      → append sha256_hex marked_at clock store stream_id pending expected_version requires_schema
        ≡ (err raised, after)
      → after ≡ store
  unfolding append append_checked
  append-eq-err marked_at clock store stream_id pending version schema {raised} {after} outside
        returns =
      split (append_arguments store stream_id pending version schema) returns
    where
      split :
          (arguments : Result (ℕ × ℕ))
          → append_checked sha256_hex marked_at clock store stream_id pending arguments
            ≡ (err raised, after)
          → after ≡ store
      split (err given) h = sym (ap (λ (p : Result (List StoredEvent) × Store). p.1) h)
      split (ok (expected, required)) h =
          within-eq-err store
            (append_work sha256_hex marked_at clock stream_id pending expected required) outside h

  -- A writer whose version is out of date is refused for it, with nothing written: on an intact
  -- database, where its arguments pass their checks, it gets the concurrency error, outside a
  -- `transaction()` block with the store as it was.
  pub append-stale :
      (marked_at clock : Datetime) (store : Store) (stream_id : String) (pending : List NewEvent)
      (expected_version requires_schema : ℤ) {expected required : ℕ}
      → IsIntact store.database
      → store.transaction_depth ≡ 0
      → append_arguments store stream_id pending expected_version requires_schema
        ≡ ok (expected, required)
      → current_stream_version stream_id store.database.events ≢ expected
      → append sha256_hex marked_at clock store stream_id pending expected_version requires_schema
        ≡ (err (event_concurrency stream_id), store)
  unfolding append append_checked append_work within write_transaction
  append-stale marked_at clock store stream_id pending version schema {expected} {required} intact
        outside checked stale =
      let refused : require_appendable stream_id expected store.database
          ≡ err (event_concurrency stream_id) =
        require_appendable-stale stream_id expected store.database intact stale in
      let alone : ltb 0 store.transaction_depth ≡ false = ground (arith, outside) in
      rw (checked, refused, alone)
