-- ===== src/Coverage/Collect/Parted.antt =====
-- reports/coverage.py: `_collect`, step by step, and the cutoff of a projection.
use mathlib.Core.List.{map}
use comply_roll.Common.{ℕ, Option, some, none, List, [], ◌∷◌, ◌++◌}
use comply_roll.Coverage.Collect.{Files, nothing_collected}
use comply_roll.Coverage.Evidence.{CoverageEvidence, EvidenceKind}
use comply_roll.Inventory.{Inventory, InformationResource, Verification, ref_of}
use comply_roll.Models.{Observation}

abbrev with_later : Files → CoverageEvidence → Files
with_later files item = record files { later = files.later ++ item ∷ [] }

abbrev observed : Observation → Option ℕ → CoverageEvidence
observed o at = record {
  kind = EvidenceKind.observation;
  resource = o.resource;
  at = at;
  reference = o.observation_id;
  disposition = some o.disposition;
}

abbrev attested : InformationResource → Verification → CoverageEvidence
attested entry v = record {
  kind = EvidenceKind.attestation;
  resource = ref_of entry;
  at = some v.at;
  reference = v.reference;
  disposition = none;
}

abbrev start : Inventory → Files
start inventory = record {
  collected = map (λ entry. (ref_of entry, nothing_collected)) inventory.entries;
  unregistered = [];
  later = [];
}
