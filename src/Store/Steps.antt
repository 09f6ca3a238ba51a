-- ===== src/Store/Steps.antt =====
-- store/sqlite.py: the runs of a store, as steps that each call one of its operations, whatever
-- comes of the call. A `transaction()` block is a sequence of statements: an operation that writes,
-- of which the caller may catch the exception, or an exception of the caller's own.
pub mod Partial
pub mod Kept
use comply_roll.Common.{
  ◌≡◌, refl, ap, sym, subst, ◌∙◌, Bool, true, false, String, List, [], ◌∷◌, ◌++◌, ℤ,
}
use comply_roll.Errors.{Error, Result, ok, err}
use comply_roll.Instant.{Datetime}
use comply_roll.Store.Rows.{StoredEvent, Database}
use comply_roll.Store.Session.{Store, transaction}
use comply_roll.Store.Append.{NewEvent, append}
use comply_roll.Store.Projection.{advance_projection, reset_projection}
use comply_roll.Store.Intact.{IsIntact}

-- The arguments of one append.
pub record Call : Type 0 where
  pub marked_at : Datetime
  pub clock : Datetime
  pub stream_id : String
  pub pending : List NewEvent
  pub expected_version : ℤ
  pub requires_schema : ℤ

-- The log is longer by some events, and intact.
abbrev pub Grows : Database → Database → Type 0
Grows before after =
    IsIntact after × ((suffix : List StoredEvent) × (after.events ≡ before.events ++ suffix))

pub append-nil : {A : Type 0} (xs : List A) → xs ++ [] ≡ xs
append-nil [] = refl
append-nil (x ∷ xs) = ap (λ l. x ∷ l) (append-nil xs)

append_assoc : {A : Type 0} (xs ys zs : List A) → (xs ++ ys) ++ zs ≡ xs ++ (ys ++ zs)
append_assoc [] ys zs = refl
append_assoc (x ∷ xs) ys zs = ap (λ l. x ∷ l) (append_assoc xs ys zs)

pub Grows-refl : (db : Database) → IsIntact db → Grows db db
Grows-refl db intact = (intact, ([], sym (append-nil db.events)))

pub Grows-same : (before after : Database) → IsIntact before → after ≡ before → Grows before after
Grows-same before after intact same = subst (Grows before) (sym same) (Grows-refl before intact)

pub Grows-trans : (a b c : Database) → Grows a b → Grows b c → Grows a c
Grows-trans a b c (h, (s, e)) (k, (t, f)) =
    (k, (s ++ t, f ∙ ap (λ l. l ++ t) e ∙ append_assoc a.events s t))

-- A call of an operation that writes.
pub data Command : Type 0 where
  appending : Call → Command
  advancing : Datetime → String → ℤ → ℤ → Command
  resetting : String → ℤ → Command

-- A statement of a block; the flag says whether the caller catches what the call raises.
pub data Statement : Type 0 where
  calling : Command → Bool → Statement
  raising : Error → Statement

-- A call whose result is dropped.
abbrev pub dropped {ℓ} : {A : Type ℓ} → Result A × Store → Result (Unit {0}) × Store
dropped (ok made, store) = (ok tt, store)
dropped (err raised, store) = (err raised, store)

-- The statements after a call.
abbrev pub continued :
    Bool
    → Result (Unit {0}) × Store
    → (Store → Result (Unit {0}) × Store)
    → Result (Unit {0}) × Store
continued caught (ok made, store) next = next store
continued true (err raised, store) next = next store
continued false (err raised, store) next = (err raised, store)

module _ (sha256_hex : String → String) where
  unfoldable pub run_command : Command → Store → Result (Unit {0}) × Store
  run_command (appending c) store = dropped (
      append sha256_hex c.marked_at c.clock store c.stream_id c.pending c.expected_version
        c.requires_schema)
  run_command (advancing clock name expected last) store =
      dropped (advance_projection clock store name expected last)
  run_command (resetting name expected) store = dropped (reset_projection store name expected)

  -- The statements of a block in turn; an exception that is not caught leaves the block.
  unfoldable pub run_statements : List Statement → Store → Result (Unit {0}) × Store
  unfolding run_command
  run_statements [] store = (ok tt, store)
  run_statements (calling command caught ∷ rest) store =
      continued caught (run_command command store) (run_statements rest)
  run_statements (raising raised ∷ rest) store = (err raised, store)

  -- One call or one block.
  pub data Step (before after : Store) : Type 0 where
    called :
        (command : Command) (result : Result (Unit {0}))
        → run_command command before ≡ (result, after)
        → Step before after
    in_block :
        (statements : List Statement) (result : Result (Unit {0}))
        → transaction before (run_statements statements) ≡ (result, after)
        → Step before after
    closed : after ≡ record before { is_open = false } → Step before after

  pub data Reach (start : Store) : Store → Type 0 where
    here : Reach start start
    next : {middle after : Store} → Reach start middle → Step middle after → Reach start after
