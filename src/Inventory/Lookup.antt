-- ===== src/Inventory/Lookup.antt =====
-- reports/inventory.py: the index that `Inventory.__post_init__` builds and `entry_for` reads.
use mathlib.Core.List.{map}
use comply_roll.Common.{
  ℕ, ◌≡◌, refl, true, false, String, some, List, [], ◌∷◌, All, All-imp, ap, sym, subst, ◌∙◌,
  is_some, Bool-cases, inl, inr, arith, not,
}
use comply_roll.Common.Order.{◌=?◌, =?_sound, =?_refl}
use comply_roll.Common.Order.Text.{string_order}
use comply_roll.Common.Order.Tuple.{pair_order}
use comply_roll.Errors.{ok, >>=-eq-ok}
use comply_roll.Inventory.{
  Index, InformationResource, Inventory, find_entry, index_identities, build_index, identities,
  ref_key, entry_for, make_inventory, is_ascending, ref_of,
}
use comply_roll.Models.{ResourceRef}

abbrev Keeps : Index → Index → Type 0
Keeps index grown =
    (key : String × String) (entry : InformationResource)
    → find_entry index key ≡ some entry
    → find_entry grown key ≡ some entry

Keeps-cons :
    (k : String × String) (e : InformationResource) (index : Index)
    → is_some (find_entry index k) ≡ false
    → Keeps index ((k, e) ∷ index)
unfolding find_entry
Keeps-cons k e index free key entry h = elim (Bool-cases (k =? key)) [
  | inl f ↦
      let taken : find_entry index k ≡ some entry = ap (find_entry index) (=?_sound k key f) ∙ h in
      let bad : true ≡ false = sym (ap is_some taken) ∙ free in cc
  | inr f ↦ rw f h
]

-- Each of the identities finds the entry.
abbrev pub Finds : Index → InformationResource → List ResourceRef → Type 0
Finds index entry ids = All (λ (id : ResourceRef). find_entry index (ref_key id) ≡ some entry) ids

head_found :
    (k : String × String) (e : InformationResource) (i : Index) → find_entry ((k, e) ∷ i) k ≡ some e
unfolding find_entry
head_found k e i = rw (=?_refl k)

index_identities_lem :
    (ids : List ResourceRef) (entry : InformationResource) (index grown : Index)
    → index_identities ids entry index ≡ ok grown
    → Finds grown entry ids × Keeps index grown
unfolding index_identities
index_identities_lem [] entry index grown h =
    let same : index ≡ grown = ground arith in
    (tt, λ key e k. ap (λ i. find_entry i key) (sym same) ∙ k)
index_identities_lem (id ∷ ids) entry index grown h =
    elim (Bool-cases (is_some (find_entry index (ref_key id)))) [
      | inl f ↦ let bad = rw f at h in cc
      | inr f ↦
          let (finds, keeps) =
            index_identities_lem ids entry ((ref_key id, entry) ∷ index) grown (rw f at h) in
          (
            (keeps (ref_key id) entry (head_found (ref_key id) entry index), finds),
            λ key e k. keeps key e (Keeps-cons (ref_key id) entry index f key e k),
          )
    ]

build_index_lem :
    (entries : List InformationResource) (index grown : Index)
    → build_index entries index ≡ ok grown
    → All (λ (entry : InformationResource). Finds grown entry (identities entry)) entries
      × Keeps index grown
unfolding build_index
build_index_lem [] index grown h =
    let same : index ≡ grown = ground arith in
    (tt, λ key e k. ap (λ i. find_entry i key) (sym same) ∙ k)
build_index_lem (entry ∷ entries) index grown h =
    let (middle, f, g) =
      >>=-eq-ok (index_identities (identities entry) entry index) (λ i. build_index entries i) h in
    let (finds, keeps) = index_identities_lem (identities entry) entry index middle f in
    let (all, stays) = build_index_lem entries middle grown g in
    (
      (All-imp (identities entry) (λ id k. stays (ref_key id) entry k) finds, all),
      λ key e k. stays key e (keeps key e k),
    )

abbrev indexed : String → String → ℕ → List InformationResource → Index → Inventory
indexed name sha256 size_bytes entries index = record {
  name = name;
  sha256 = sha256;
  size_bytes = size_bytes;
  entries = entries;
  index = index;
}

-- The inventory holds the entries, and finds each by all of its identities.
abbrev pub Answers : List InformationResource → Inventory → Type 0
Answers entries inventory =
    (inventory.entries ≡ entries)
    × All
        (λ (entry : InformationResource).
          All
            (λ (id : ResourceRef). entry_for inventory id.resource_type id.resource_id ≡ some entry)
            (identities entry))
        entries

-- In an inventory that is accepted, every identity of every entry, its reference and each alias,
-- finds that entry; and its entries are the ones given.
pub make_inventory_lem :
    (name sha256 : String) (size_bytes : ℕ) (entries : List InformationResource)
    (inventory : Inventory)
    → make_inventory name sha256 size_bytes entries ≡ ok inventory
    → Answers entries inventory
unfolding make_inventory entry_for
make_inventory_lem name sha256 size_bytes entries inventory h =
    elim (Bool-cases (not (is_ascending (map (λ entry. ref_key (ref_of entry)) entries)))) [
      | inl f ↦ let bad = rw f at h in cc
      | inr f ↦
          let (index, g, made) =
            >>=-eq-ok (build_index entries [])
              (λ index. ok (indexed name sha256 size_bytes entries index)) (rw f at h) in
          let same : indexed name sha256 size_bytes entries index ≡ inventory = cc in
          subst (Answers entries) same (refl, (build_index_lem entries [] index g).0)
    ]
