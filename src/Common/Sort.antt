-- ===== src/Common/Sort.antt =====
-- `sorted(xs, key=key)`: Python's stable sort. The proofs are in the module below.
pub mod Laws
use mathlib.Core.Path.{◌≡◌}
use mathlib.Core.Bool.{true}
use mathlib.Core.List.{List, [], ◌∷◌}
use comply_roll.Common.Lists.{All}
use comply_roll.Common.Tests.{if◌then◌else◌}
use comply_roll.Common.Order.{Order, ◌≤?◌}

module _ {ℓ κ} {A : Type ℓ} {K : Type κ} ⦃o : Order K⦄ where
  -- `x` goes before the elements with an equal key, since it came before them.
  unfoldable pub insert_by : (A → K) → A → List A → List A
  insert_by key x [] = x ∷ []
  insert_by key x (y ∷ ys) = if key x ≤? key y then x ∷ y ∷ ys else y ∷ insert_by key x ys

  unfoldable pub sorted : (A → K) → List A → List A
  unfolding insert_by
  sorted key [] = []
  sorted key (x ∷ xs) = insert_by key x (sorted key xs)

  -- The keys ascend.
  abbrev pub Ascending : (A → K) → List A → Type 0
  Ascending key [] = Unit
  Ascending key (x ∷ xs) = All (λ y. (key x ≤? key y) ≡ true) xs × Ascending key xs
