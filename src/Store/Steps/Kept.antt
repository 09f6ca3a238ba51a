-- ===== src/Store/Steps/Kept.antt =====
-- store/sqlite.py: what every run of a store keeps.
use comply_roll.Common.{
  ℕ, ◌≤◌, ◌≡◌, refl, ap, sym, subst, ◌∙◌, Bool, true, false, String, List, [], ◌∷◌, ◌++◌, ltb,
}
use comply_roll.Errors.{Result, ok, err}
use comply_roll.Instant.{Datetime}
use comply_roll.Store.Arguments.{supported_schema_version}
use comply_roll.Store.Rows.{StoredEvent, Database}
use comply_roll.Store.Session.{
  Outcome, Store, transaction, run_block, left_block, within, kept_or_rolled_back,
  write_transaction,
}
use comply_roll.Store.Append.{NewEvent, append, append_checked, append_arguments, append_work}
use comply_roll.Store.Append.Contract.{arguments-eq-ok}
use comply_roll.Store.Append.Refused.{transaction-eq-err, transaction-eq-ok}
use comply_roll.Store.Projection.{
  advance_projection, reset_projection, advance_checked, reset_checked, advance_arguments,
  reset_arguments, advance_work, reset_work,
}
use comply_roll.Store.Intact.{IsIntact}
use comply_roll.Store.Steps.{
  Grows, Grows-refl, Grows-same, Grows-trans, append-nil, Command, appending, advancing, resetting,
  Statement, calling, raising, dropped, continued, run_command, run_statements, Step, called,
  in_block, closed, Reach, here, next,
}
use comply_roll.Store.Steps.Partial.{advance_work-Grows, reset_work-Grows, append_work-Grows}

-- No operation changes how deep the store is in transactions.
abbrev depth_after {ℓ} : {A : Type ℓ} → Result A × Store → ℕ
depth_after (result, after) = after.transaction_depth

depth-within :
    {A : Type 0} (store : Store) (work : Database → Outcome A)
    → depth_after (within store work) ≡ store.transaction_depth
unfolding within
depth-within store work = refl

depth-advance :
    (clock : Datetime) (store : Store) (name : String) (arguments : Result (ℕ × ℕ))
    → depth_after (advance_checked clock store name arguments) ≡ store.transaction_depth
unfolding advance_checked
depth-advance clock store name (err raised) = refl
depth-advance clock store name (ok (expected, last)) =
    depth-within store (advance_work clock name expected last)

depth-reset :
    (store : Store) (name : String) (arguments : Result ℕ)
    → depth_after (reset_checked store name arguments) ≡ store.transaction_depth
unfolding reset_checked
depth-reset store name (err raised) = refl
depth-reset store name (ok expected) = depth-within store (reset_work name expected)

depth-block :
    {A : Type 0} (store : Store) (block : Store → Result A × Store) (check : Result (Unit {0}))
    → depth_after (run_block store block check) ≡ store.transaction_depth
unfolding run_block
depth-block store block (err raised) = refl
depth-block {A} store block (ok u) = left (block (record store { transaction_depth = 1 }))
  where
    left : (ran : Result A × Store) → depth_after (left_block store ran) ≡ store.transaction_depth
    left (err raised, inner) = refl
    left (ok made, inner) = refl

depth-transaction :
    {A : Type 0} (store : Store) (block : Store → Result A × Store)
    → depth_after (transaction store block) ≡ store.transaction_depth
unfolding transaction
depth-transaction store block = depth-block store block _

module _ (sha256_hex : String → String) where
  depth-append :
      (marked_at clock : Datetime) (store : Store) (stream_id : String) (pending : List NewEvent)
      (arguments : Result (ℕ × ℕ))
      → depth_after (append_checked sha256_hex marked_at clock store stream_id pending arguments)
        ≡ store.transaction_depth
  unfolding append_checked
  depth-append marked_at clock store stream_id pending (err raised) = refl
  depth-append marked_at clock store stream_id pending (ok (expected, required)) =
      depth-within store
        (append_work sha256_hex marked_at clock stream_id pending expected required)

  depth-dropped :
      {A : Type 0} (ran : Result A × Store) → depth_after (dropped ran) ≡ depth_after ran
  depth-dropped (ok made, store) = refl
  depth-dropped (err raised, store) = refl

  run_command-depth :
      (command : Command) (store : Store)
      → depth_after (run_command sha256_hex command store) ≡ store.transaction_depth
  unfolding run_command append advance_projection reset_projection
  run_command-depth (appending c) store =
      depth-dropped (
        append sha256_hex c.marked_at c.clock store c.stream_id c.pending c.expected_version
          c.requires_schema)
      ∙ depth-append c.marked_at c.clock store c.stream_id c.pending
          (append_arguments store c.stream_id c.pending c.expected_version c.requires_schema)
  run_command-depth (advancing clock name expected last) store =
      depth-dropped (advance_projection clock store name expected last)
      ∙ depth-advance clock store name (advance_arguments store name expected last)
  run_command-depth (resetting name expected) store =
      depth-dropped (reset_projection store name expected)
      ∙ depth-reset store name (reset_arguments store name expected)

  Step-depth :
      {before after : Store}
      → Step sha256_hex before after
      → after.transaction_depth ≡ before.transaction_depth
  Step-depth {before} {after} (called command result ran) =
      sym (ap depth_after ran) ∙ run_command-depth command before
  Step-depth {before} {after} (in_block statements result ran) =
      sym (ap depth_after ran) ∙ depth-transaction before (run_statements sha256_hex statements)
  Step-depth {before} {after} (closed same) = ap (λ (s : Store). s.transaction_depth) same

-- The database after a call.
abbrev GrowsBy {ℓ} : {A : Type ℓ} → Store → Result A × Store → Type 0
GrowsBy store ran = Grows store.database ran.1.database

-- A transaction keeps what its work has written or puts back what was there.
within-Grows :
    {A : Type 0} (store : Store) (work : Database → Outcome A)
    → IsIntact store.database
    → Grows store.database (work store.database).1
    → GrowsBy store (within store work)
unfolding within write_transaction
within-Grows {A} store work intact grown =
    left (ltb 0 store.transaction_depth) (work store.database) grown
  where
    left :
        (joined : Bool) (outcome : Outcome A)
        → Grows store.database outcome.1
        → Grows store.database (kept_or_rolled_back joined store.database outcome).1
    left joined (ok made, after) h = h
    left true (err raised, after) h = h
    left false (err raised, after) h = Grows-refl store.database intact

dropped-Grows :
    {A : Type 0} (store : Store) (ran : Result A × Store)
    → GrowsBy store ran
    → GrowsBy store (dropped ran)
dropped-Grows store (ok made, after) h = h
dropped-Grows store (err raised, after) h = h

advance_checked-Grows :
    (clock : Datetime) (store : Store) (name : String) (arguments : Result (ℕ × ℕ))
    → IsIntact store.database
    → GrowsBy store (advance_checked clock store name arguments)
unfolding advance_checked
advance_checked-Grows clock store name (err raised) intact = Grows-refl store.database intact
advance_checked-Grows clock store name (ok (expected, last)) intact =
    within-Grows store (advance_work clock name expected last) intact
      (advance_work-Grows clock name expected last store.database intact)

reset_checked-Grows :
    (store : Store) (name : String) (arguments : Result ℕ)
    → IsIntact store.database
    → GrowsBy store (reset_checked store name arguments)
unfolding reset_checked
reset_checked-Grows store name (err raised) intact = Grows-refl store.database intact
reset_checked-Grows store name (ok expected) intact =
    within-Grows store (reset_work name expected) intact
      (reset_work-Grows name expected store.database intact)

module _ (sha256_hex : String → String) where
  append_checked-Grows :
      (marked_at clock : Datetime) (store : Store) (stream_id : String) (pending : List NewEvent)
      (arguments : Result (ℕ × ℕ))
      → IsIntact store.database
      → ((expected required : ℕ)
          → arguments ≡ ok (expected, required)
          → required ≤ supported_schema_version)
      → GrowsBy store (append_checked sha256_hex marked_at clock store stream_id pending arguments)
  unfolding append_checked
  append_checked-Grows marked_at clock store stream_id pending (err raised) intact few =
      Grows-refl store.database intact
  append_checked-Grows marked_at clock store stream_id pending (ok (expected, required)) intact
        few =
      within-Grows store
        (append_work sha256_hex marked_at clock stream_id pending expected required) intact
        (append_work-Grows sha256_hex marked_at clock stream_id pending expected required
          store.database intact (few expected required refl))

  run_command-Grows :
      (command : Command) (store : Store)
      → IsIntact store.database
      → GrowsBy store (run_command sha256_hex command store)
  unfolding run_command append advance_projection reset_projection
  run_command-Grows (appending c) store intact = dropped-Grows store _ (
      append_checked-Grows c.marked_at c.clock store c.stream_id c.pending
        (append_arguments store c.stream_id c.pending c.expected_version c.requires_schema) intact
        (λ expected required checked.
          (arguments-eq-ok store c.stream_id c.pending c.expected_version c.requires_schema
            checked).1))
  run_command-Grows (advancing clock name expected last) store intact =
      dropped-Grows store _
        (advance_checked-Grows clock store name (advance_arguments store name expected last) intact)
  run_command-Grows (resetting name expected) store intact =
      dropped-Grows store _
        (reset_checked-Grows store name (reset_arguments store name expected) intact)

  continued-Grows :
      (store : Store) (caught : Bool) (ran : Result (Unit {0}) × Store)
      (rest : Store → Result (Unit {0}) × Store)
      → GrowsBy store ran
      → ((middle : Store) → IsIntact middle.database → GrowsBy middle (rest middle))
      → GrowsBy store (continued caught ran rest)
  continued-Grows store caught (ok made, middle) rest h onward =
      Grows-trans store.database middle.database _ h (onward middle h.0)
  continued-Grows store true (err raised, middle) rest h onward =
      Grows-trans store.database middle.database _ h (onward middle h.0)
  continued-Grows store false (err raised, middle) rest h onward = h

  run_statements-Grows :
      (statements : List Statement) (store : Store)
      → IsIntact store.database
      → GrowsBy store (run_statements sha256_hex statements store)
  unfolding run_statements
  run_statements-Grows [] store intact = Grows-refl store.database intact
  run_statements-Grows (raising raised ∷ rest) store intact = Grows-refl store.database intact
  run_statements-Grows (calling command caught ∷ rest) store intact =
      continued-Grows store caught (run_command sha256_hex command store)
        (run_statements sha256_hex rest) (run_command-Grows command store intact)
        (run_statements-Grows rest)

  in_block-Grows :
      (statements : List Statement) (before : Store) (result : Result (Unit {0})) {after : Store}
      → IsIntact before.database
      → transaction before (run_statements sha256_hex statements) ≡ (result, after)
      → Grows before.database after.database
  in_block-Grows statements before (err raised) {after} intact ran =
      Grows-same before.database after.database intact (
        ap (λ (s : Store). s.database)
          (transaction-eq-err before (run_statements sha256_hex statements) ran))
  in_block-Grows statements before (ok made) {after} intact ran =
      let (inner, went, log) =
        transaction-eq-ok before (run_statements sha256_hex statements) ran in
      let grown =
        run_statements-Grows statements (record before { transaction_depth = 1 }) intact in
      subst (Grows before.database) (ap (λ p. p.1.database) went ∙ sym log) grown

  Step-Grows :
      {before after : Store}
      → Step sha256_hex before after
      → IsIntact before.database
      → Grows before.database after.database
  Step-Grows {before} {after} (called command result ran) intact =
      subst (Grows before.database) (ap (λ p. p.1.database) ran)
        (run_command-Grows command before intact)
  Step-Grows {before} {after} (in_block statements result ran) intact =
      in_block-Grows statements before result intact ran
  Step-Grows {before} {after} (closed same) intact =
      Grows-same before.database after.database intact (ap (λ (s : Store). s.database) same)

  -- Whatever appends, projection updates, `transaction()` blocks and closings are called on a store
  -- in whatever order, whether the calls return or raise, and whether a block catches what its calls
  -- raise: an intact database stays intact, and the log only grows: what was in it stands unchanged
  -- before what was added. The store is as deep in transactions as at the start.
  pub Reach-Grows :
      {start store : Store}
      → IsIntact start.database
      → Reach sha256_hex start store
      → IsIntact store.database
        × (store.transaction_depth ≡ start.transaction_depth)
        × ((suffix : List StoredEvent) × (store.database.events ≡ start.database.events ++ suffix))
  Reach-Grows {start} intact here = (intact, refl, ([], sym (append-nil start.database.events)))
  Reach-Grows {start} {store} intact (next {middle} reached step) =
      let (whole, deep, grown) = Reach-Grows intact reached in
      let (all_kept, all_longer) =
        Grows-trans start.database middle.database store.database (whole, grown)
          (Step-Grows step whole) in
      (all_kept, Step-depth sha256_hex step ∙ deep, all_longer)
