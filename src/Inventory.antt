-- ===== src/Inventory.antt =====
-- reports/inventory.py: the records of the information resource inventory and what their
-- `__post_init__` refuses. Its aware instants
-- compare as instants of UTC.
pub mod Lookup
mod Tests
use Prim.Native.Char.{code}
use comply_roll.Common.{
  ℕ, zero, suc, leb, nat_eqb, Bool, true, false, not, ◌&&◌, ◌||◌, String, Option, none, some, List,
  [], ◌∷◌, map, any, is_some, is_none, ltb, if◌then◌else◌,
}
use comply_roll.Common.Order.{◌=?◌, ◌≤?◌, ◌<?◌}
use comply_roll.Common.Order.Text.{string_order}
use comply_roll.Common.Order.Tuple.{pair_order}
use comply_roll.Errors.{Result, ok, err, value_error, refuse_if, ◌>>=◌, ◌>>◌}
use comply_roll.Models.{ResourceRef}

pub record Verification : Type 0 where
  pub at : ℕ
  pub reference : String

-- `drift_likely`: True, False or DRIFT_UNKNOWN
pub data Drift : Type 0 where
  likely unlikely unknown : Drift

pub record InformationResource : Type 0 where
  pub resource_type : String
  pub resource_id : String
  pub machine_based : Bool
  pub expected_since : ℕ
  pub drift_likely : Option Drift
  pub sample_group : Option String
  pub job : Option String
  pub decommissioned_at : Option ℕ
  pub aliases : List ResourceRef
  pub verifications : List Verification

-- `InformationResource.ref`
abbrev pub ref_of : InformationResource → ResourceRef
ref_of entry = record { resource_id = entry.resource_id; resource_type = entry.resource_type }

abbrev pub identities : InformationResource → List ResourceRef
identities entry = ref_of entry ∷ entry.aliases

-- `_ref_key`
abbrev pub ref_key : ResourceRef → String × String
ref_key ref = (ref.resource_type, ref.resource_id)

abbrev pub Index : Type 0
Index = List ((String × String) × InformationResource)

-- `index.get(key)`
unfoldable pub find_entry : Index → String × String → Option InformationResource
find_entry [] key = none
find_entry ((k, entry) ∷ index) key = if k =? key then some entry else find_entry index key

pub record Inventory : Type 0 where
  pub name : String
  pub sha256 : String
  pub size_bytes : ℕ
  pub entries : List InformationResource
  pub index : Index

-- `Inventory.entry_for`
unfoldable pub entry_for : Inventory → String → String → Option InformationResource
entry_for inventory resource_type resource_id =
    find_entry inventory.index (resource_type, resource_id)

-- `keys == sorted(set(keys))`: the keys ascend and none repeats.
unfoldable pub is_ascending : List (String × String) → Bool
is_ascending [] = true
is_ascending (x ∷ []) = true
is_ascending (x ∷ y ∷ rest) = (x <? y) && is_ascending (y ∷ rest)

-- `moments == sorted(moments)`, of the pairs of an instant and a reference
is_sorted_moments : List Verification → Bool
is_sorted_moments [] = true
is_sorted_moments (v ∷ []) = true
is_sorted_moments (v ∷ w ∷ rest) =
    (ltb v.at w.at || (not (ltb w.at v.at) && (v.reference ≤? w.reference)))
    && is_sorted_moments (w ∷ rest)

-- The identities of one entry join the index, unless one is taken.
unfoldable index_identities : List ResourceRef → InformationResource → Index → Result Index
index_identities [] entry index = ok index
index_identities (identity ∷ rest) entry index =
    if is_some (find_entry index (ref_key identity))
    then err (value_error "identity")
    else index_identities rest entry ((ref_key identity, entry) ∷ index)

unfoldable build_index : List InformationResource → Index → Result Index
unfolding index_identities
build_index [] index = ok index
build_index (entry ∷ entries) index = do
  grown ← index_identities (identities entry) entry index
  build_index entries grown

-- `Inventory.__post_init__`
unfoldable pub make_inventory : String → String → ℕ → List InformationResource → Result Inventory
unfolding is_ascending build_index
make_inventory name sha256 size_bytes entries = do
  refuse_if (not (is_ascending (map (λ entry. ref_key (ref_of entry)) entries)))
      (value_error "entries")
  index ← build_index entries []
  ok (record {
    name = name;
    sha256 = sha256;
    size_bytes = size_bytes;
    entries = entries;
    index = index;
  })

-- `decommissioned_at < expected_since`
starts_late : Option ℕ → ℕ → Bool
starts_late none since = false
starts_late (some at) since = ltb at since

unfoldable pub has_colon : String → Bool
has_colon String.[] = false
has_colon (String.◌∷◌ c s) = nat_eqb (code c) b':' || has_colon s

-- `_NAME.fullmatch`: printable ASCII, with no space at either end, at most 128 characters.
-- `left` is how many characters may follow.
label_rest : ℕ → String → Bool
label_rest left String.[] = false
label_rest zero (String.◌∷◌ c s) = false
label_rest (suc left) (String.◌∷◌ c String.[]) = leb 33 (code c) && leb (code c) 126
label_rest (suc left) (String.◌∷◌ c (String.◌∷◌ d s)) =
    leb 32 (code c) && leb (code c) 126 && label_rest left (String.◌∷◌ d s)

is_label : String → Bool
is_label String.[] = false
is_label (String.◌∷◌ c String.[]) = leb 33 (code c) && leb (code c) 126
is_label (String.◌∷◌ c (String.◌∷◌ d s)) =
    leb 33 (code c) && leb (code c) 126 && label_rest 127 (String.◌∷◌ d s)

bad_label : Option String → Bool
bad_label none = false
bad_label (some label) = not (is_label label)

has_verifications : List Verification → Bool
has_verifications [] = false
has_verifications (v ∷ vs) = true

-- `InformationResource.__post_init__`
unfoldable pub check_entry : InformationResource → Result InformationResource
unfolding starts_late is_sorted_moments is_ascending has_colon label_rest is_label bad_label
    has_verifications
check_entry entry = do
  refuse_if (any (λ ref. has_colon ref.resource_type) (identities entry))
      (value_error "resource type")
  refuse_if (bad_label entry.sample_group || bad_label entry.job) (value_error "label")
  refuse_if (starts_late entry.decommissioned_at entry.expected_since)
      (value_error "decommissioned_at")
  refuse_if (entry.machine_based && is_none entry.drift_likely) (value_error "drift_likely")
  refuse_if (not entry.machine_based && is_some entry.drift_likely) (value_error "drift_likely")
  refuse_if (entry.machine_based && has_verifications entry.verifications)
      (value_error "verifications")
  refuse_if
      (not (is_ascending (map ref_key entry.aliases))
        || any (λ alias. ref_key alias =? ref_key (ref_of entry)) entry.aliases)
      (value_error "aliases")
  refuse_if (not (is_sorted_moments entry.verifications)) (value_error "verifications")
  ok entry
