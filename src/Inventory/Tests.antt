-- ===== src/Inventory/Tests.antt =====
-- A host that was renamed, found by its old name.
use comply_roll.Common.{◌≡◌, refl, true, some, none, [], ◌∷◌}
use comply_roll.Errors.{ok}
use comply_roll.Inventory.{
  InformationResource, Inventory, Drift, make_inventory, find_entry, is_ascending, build_index,
  index_identities, entry_for,
}
use comply_roll.Inventory.Lookup.{Answers, make_inventory_lem}

abbrev web : InformationResource
web = record {
  resource_type = "host";
  resource_id = "web-1";
  machine_based = true;
  expected_since = 1000;
  drift_likely = some Drift.likely;
  sample_group = none;
  job = none;
  decommissioned_at = none;
  aliases = record { resource_id = "old-web"; resource_type = "host" } ∷ [];
  verifications = [];
}

abbrev inventory : Inventory
inventory = record {
  name = "inventory.json";
  sha256 = "00";
  size_bytes = 12;
  entries = web ∷ [];
  index = (("host", "old-web"), web) ∷ (("host", "web-1"), web) ∷ [];
}

inventory_makes : make_inventory "inventory.json" "00" 12 (web ∷ []) ≡ ok inventory
unfolding make_inventory find_entry is_ascending build_index index_identities
inventory_makes = refl

renamed : entry_for inventory "host" "old-web" ≡ some web
unfolding entry_for find_entry
renamed = refl

make_inventory_lem_example : Answers (web ∷ []) inventory
make_inventory_lem_example =
    make_inventory_lem "inventory.json" "00" 12 (web ∷ []) inventory inventory_makes
