-- ===== src/Common/Sort/Laws.antt =====
-- Lemmas on sorting.
use mathlib.Core.Path.{◌≡◌, refl, sym, ap₂, subst, ◌∙◌}
use mathlib.Core.Logic.{inl, inr}
use mathlib.Core.Bool.{true}
use mathlib.Core.List.{List, [], ◌∷◌, Perm, Permᴰ}
use mathlib.Core.List.Perm
use native.Mathlib.Omega.{arith}
use comply_roll.Common.Lists.{All}
use comply_roll.Common.Tests.{Bool-cases}
use comply_roll.Common.Order.{Order, ◌≤?◌}
use comply_roll.Common.Sort.{insert_by, sorted, Ascending}

All-Permᴰ {ℓ μ} : {A : Type ℓ} (P : A → Type μ) {l r : List A} → Permᴰ l r → All P l → All P r
All-Permᴰ P Permᴰ.nil h = h
All-Permᴰ P (Permᴰ.cons e p) h = (subst P e h.0, All-Permᴰ P p h.1)
All-Permᴰ P (Permᴰ.swap e f) h = (subst P f h.1.0, (subst P e h.0, h.1.1))
All-Permᴰ P (Permᴰ.trans p q) h = All-Permᴰ P q (All-Permᴰ P p h)

module _ {ℓ κ} {A : Type ℓ} {K : Type κ} ⦃o : Order K⦄ (key : A → K) where
  pub insert_by-perm : (x : A) (l : List A) → Perm (insert_by key x l) (x ∷ l)
  unfolding insert_by
  insert_by-perm x [] = Perm.rfl
  insert_by-perm x (y ∷ ys) = elim (Bool-cases (key x ≤? key y)) [
    | inl e ↦ rw (e, insert_by) Perm.rfl
    | inr e ↦ rw (e, insert_by) (Perm.trans (Perm.cons y (insert_by-perm x ys)) (Perm.swap x y ys))
  ]

  pub sorted-perm : (l : List A) → Perm (sorted key l) l
  unfolding sorted
  sorted-perm [] = Perm.rfl
  sorted-perm (x ∷ xs) =
      Perm.trans (insert_by-perm x (sorted key xs)) (Perm.cons x (sorted-perm xs))

  All-insert_by : (P : A → Type 0) (x : A) (l : List A) → P x → All P l → All P (insert_by key x l)
  unfolding insert_by
  All-insert_by P x [] h k = (h, tt)
  All-insert_by P x (y ∷ ys) h k = elim (Bool-cases (key x ≤? key y)) [
    | inl e ↦ rw (e, insert_by) (h, k)
    | inr e ↦ rw (e, insert_by) (k.0, All-insert_by P x ys h k.1)
  ]

  All-le :
      (x y : A) (l : List A)
      → (key x ≤? key y) ≡ true
      → All (λ z. (key y ≤? key z) ≡ true) l
      → All (λ z. (key x ≤? key z) ≡ true) l
  All-le x y [] e h = tt
  All-le x y (z ∷ zs) e h = (o.trans (key x) (key y) (key z) e h.0, All-le x y zs e h.1)

  insert_by-Ascending : (x : A) (l : List A) → Ascending key l → Ascending key (insert_by key x l)
  unfolding insert_by
  insert_by-Ascending x [] h = (tt, tt)
  insert_by-Ascending x (y ∷ ys) h = elim (Bool-cases (key x ≤? key y)) [
    | inl e ↦ rw (e, insert_by) ((e, All-le x y ys e h.0), h)
    | inr e ↦
        rw (e, insert_by)
          (
            All-insert_by (λ z. (key y ≤? key z) ≡ true) x ys (o.total (key x) (key y) e) h.0,
            insert_by-Ascending x ys h.1,
          )
  ]

  pub sorted-Ascending : (l : List A) → Ascending key (sorted key l)
  unfolding sorted
  sorted-Ascending [] = tt
  sorted-Ascending (x ∷ xs) = insert_by-Ascending x (sorted key xs) (sorted-Ascending xs)

  -- Two elements that have different keys, or are one, can be inserted in either order.
  insert_by_comm :
      (x y : A) (l : List A)
      → (key x ≡ key y → x ≡ y)
      → insert_by key x (insert_by key y l) ≡ insert_by key y (insert_by key x l)
  unfolding insert_by
  insert_by_comm x y [] h = elim (Bool-cases (key x ≤? key y)) [
    | inl e ↦ elim (Bool-cases (key y ≤? key x)) [
      | inl f ↦ rw (h (o.antisymm (key x) (key y) e f))
      | inr f ↦ rw (e, f)
    ]
    | inr e ↦ rw (e, o.total (key x) (key y) e)
  ]
  insert_by_comm x y (z ∷ zs) h = elim (Bool-cases (key x ≤? key y)) [
    | inl e ↦ elim (Bool-cases (key y ≤? key x)) [
      | inl f ↦
          subst
            (λ w.
              insert_by key x (insert_by key w (z ∷ zs))
              ≡ insert_by key w (insert_by key x (z ∷ zs)))
            (h (o.antisymm (key x) (key y) e f)) refl
      | inr f ↦ ground (arith, o.trans (key x) (key y) (key z) e, insert_by_comm x y zs h)
    ]
    | inr e ↦ ground (
      arith,
      o.trans (key y) (key x) (key z) (o.total (key x) (key y) e),
      o.total (key x) (key y) e,
      insert_by_comm x y zs h,
    )
  ]

  -- Two elements with one key are one element.
  abbrev SameByKey : A → A → Type (ℓ ⊔ κ)
  SameByKey a b = key a ≡ key b → a ≡ b

  -- The keys tell the elements of a list apart.
  abbrev pub KeyedApart : List A → Type (ℓ ⊔ κ)
  KeyedApart [] = Unit
  KeyedApart (x ∷ xs) = All (SameByKey x) xs × KeyedApart xs

  KeyedApart-swap : (a b : A) (l : List A) → KeyedApart (a ∷ b ∷ l) → KeyedApart (b ∷ a ∷ l)
  KeyedApart-swap a b l h = (((λ e. sym (h.0.0 (sym e))), h.1.0), (h.0.1, h.1.1))

  KeyedApart-perm : {l r : List A} → Permᴰ l r → KeyedApart l → KeyedApart r
  KeyedApart-perm Permᴰ.nil h = h
  KeyedApart-perm (Permᴰ.cons {a = a} {b = b} {l₁ = l} {l₂ = r} e p) h =
      (subst (λ u. All (SameByKey u) r) e (All-Permᴰ (SameByKey a) p h.0), KeyedApart-perm p h.1)
  KeyedApart-perm (Permᴰ.swap {a = a} {b = b} {a' = c} {b' = d} {l = l} e f) h =
      subst (λ u. KeyedApart (u ∷ d ∷ l)) f
        (subst (λ u. KeyedApart (b ∷ u ∷ l)) e (KeyedApart-swap a b l h))
  KeyedApart-perm (Permᴰ.trans p q) h = KeyedApart-perm q (KeyedApart-perm p h)

  -- Rearranging the input of a sort leaves its result unchanged.
  pub sorted_of_perm : {l r : List A} → Permᴰ l r → KeyedApart l → sorted key l ≡ sorted key r
  unfolding sorted
  sorted_of_perm Permᴰ.nil h = refl
  sorted_of_perm (Permᴰ.cons {a = a} {b = b} {l₁ = l} e p) h =
      ap₂ (insert_by key) e (sorted_of_perm p h.1)
  sorted_of_perm (Permᴰ.swap {a = a} {b = b} {l = l} e f) h =
      insert_by_comm a b (sorted key l) h.0.0
      ∙ ap₂ (λ u v. insert_by key u (insert_by key v (sorted key l))) f e
  sorted_of_perm (Permᴰ.trans p q) h = sorted_of_perm p h ∙ sorted_of_perm q (KeyedApart-perm p h)
