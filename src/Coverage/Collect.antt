-- ===== src/Coverage/Collect.antt =====
-- reports/coverage.py: `_collect` and `_file`, which file every observation and attestation.
pub mod Cutoff
pub mod Parted
mod Tests
use mathlib.Core.List.{map}
use comply_roll.Common.{
  ℕ, ◌+◌, Bool, true, false, not, ◌&&◌, String, Option, none, some, List, [], ◌∷◌, ◌++◌, ltb, ◌==◌,
  if◌then◌else◌,
}
use comply_roll.Common.Order.{◌=?◌}
use comply_roll.Common.Order.Text.{string_order}
use comply_roll.Common.Order.Tuple.{pair_order}
use comply_roll.Coverage.Evidence.{CoverageEvidence, EvidenceKind, Timed, check_evidence}
use comply_roll.Errors.{Result, ok, err, key_error, ◌>>=◌}
use comply_roll.Instant.{Datetime, to_utc}
use comply_roll.Inventory.{Inventory, InformationResource, Verification, ref_of, ref_key, entry_for}
use comply_roll.Models.{Observation, ObservationDisposition, ResourceRef, is_artifact, is_pass}

abbrev pub package_resource_type : String
package_resource_type = "package"

abbrev pub cyclonedx_source_type : String
cyclonedx_source_type = "cyclonedx"

abbrev pub cyclonedx_scope_record_id : String
cyclonedx_scope_record_id = "cyclonedx.bom"

-- `disposition in VERIFYING_DISPOSITIONS`
abbrev pub is_verifying : ObservationDisposition → Bool
is_verifying ObservationDisposition.opened = true
is_verifying ObservationDisposition.pass = true
is_verifying ObservationDisposition.not_applicable = true
is_verifying ObservationDisposition.not_reviewed = false
is_verifying ObservationDisposition.error = false
is_verifying ObservationDisposition.unknown = false

-- `_Collected`
pub record Collected : Type 0 where
  pub examined : List Timed
  pub verifying : List Timed
  pub untimed : List CoverageEvidence
  pub after_decommission : List CoverageEvidence

abbrev pub nothing_collected : Collected
nothing_collected = record { examined = []; verifying = []; untimed = []; after_decommission = [] }

-- `dict[ResourceRef, _Collected]`, in the order of the inventory's entries
abbrev pub Filed : Type 0
Filed = List (ResourceRef × Collected)

abbrev pub Counts : Type 0
Counts = List (ResourceRef × ℕ)

-- The three results of `_collect`.
pub record Files : Type 0 where
  pub collected : Filed
  pub unregistered : Counts
  pub later : List CoverageEvidence

-- `ref == ref`
abbrev pub same_ref : ResourceRef → ResourceRef → Bool
same_ref r s = ref_key r =? ref_key s

-- `collected[ref]` is changed by `f`, and a missing key is a `KeyError`.
unfoldable pub update : ResourceRef → (Collected → Collected) → Filed → Result Filed
update ref f [] = err (key_error "collected")
update ref f ((r, found) ∷ rest) =
    let onward = (do changed ← update ref f rest; ok ((r, found) ∷ changed)) in
    if same_ref r ref then ok ((r, f found) ∷ rest) else onward

-- `collected[ref]`
unfoldable pub found_at : ResourceRef → Filed → Result Collected
found_at ref [] = err (key_error "collected")
found_at ref ((r, found) ∷ rest) = if same_ref r ref then ok found else found_at ref rest

-- `unregistered[resource] += 1`
unfoldable pub count_up : ResourceRef → Counts → Counts
count_up ref [] = (ref, 1) ∷ []
count_up ref ((r, n) ∷ rest) =
    if same_ref r ref then (r, n + 1) ∷ rest else (r, n) ∷ count_up ref rest

unfoldable stopped_before : Option ℕ → ℕ → Bool
stopped_before none at = false
stopped_before (some stopped) at = ltb stopped at

-- `_file`
unfoldable pub file_evidence :
    InformationResource → ℕ → CoverageEvidence → Bool → Collected → Collected
unfolding stopped_before
file_evidence entry at item verifies found =
    if stopped_before entry.decommissioned_at at
    then record found { after_decommission = found.after_decommission ++ item ∷ [] }
    else record found {
      examined = found.examined ++ (at, item) ∷ [];
      verifying = if verifies then found.verifying ++ (at, item) ∷ [] else found.verifying;
    }

-- A row of a CycloneDX document other than its scope record.
unfoldable pub is_row : Observation → Bool
is_row o =
    o.source_type == cyclonedx_source_type && not (o.source_record_id == cyclonedx_scope_record_id)

-- Whether a timed observation within the cutoff verifies its entry.
unfoldable pub verifies_entry : Observation → InformationResource → Bool
verifies_entry o entry =
    let verifies = entry.machine_based && is_verifying o.disposition in
    if o.source_type == cyclonedx_source_type then verifies && is_pass o.disposition else verifies

-- `None if observed_at is None else _utc(observed_at)`
unfoldable observed_instant : Option Datetime → Result (Option ℕ)
observed_instant none = ok none
observed_instant (some clock) = do at ← to_utc clock; ok (some at)

unfoldable is_later : Option ℕ → ℕ → Bool
is_later none cutoff = false
is_later (some at) cutoff = ltb cutoff at

-- The last two branches: an untimed observation, and a timed one within the cutoff.
unfoldable file_observation :
    Observation → InformationResource → Option ℕ → CoverageEvidence → Collected → Collected
file_observation o entry none item found = record found { untimed = found.untimed ++ item ∷ [] }
file_observation o entry (some at) item found =
    file_evidence entry at item (verifies_entry o entry) found

unfoldable place_registered :
    Observation → Option InformationResource → Option ℕ → CoverageEvidence → Files → Result Files
unfolding file_observation
place_registered o none at item files =
    ok (record files { unregistered = count_up o.resource files.unregistered })
place_registered o (some entry) at item files = if is_row o then ok files else (do
  changed ← update (ref_of entry) (file_observation o entry at item) files.collected
  ok (record files { collected = changed }))

unfoldable place : Inventory → ℕ → Observation → Option ℕ → CoverageEvidence → Files → Result Files
unfolding is_later place_registered
place inventory cutoff o at item files =
    if is_later at cutoff
    then ok (if is_row o then files else record files { later = files.later ++ item ∷ [] })
    else place_registered o (entry_for inventory o.resource.resource_type o.resource.resource_id) at
        item files

-- The body of the first loop.
unfoldable pub collect_observation : Inventory → ℕ → Observation → Files → Result Files
unfolding place observed_instant
collect_observation inventory cutoff o files =
    if not (is_artifact o.origin)
    then ok files
    else if o.resource.resource_type == package_resource_type
    then ok files
    else (do
      at ← observed_instant o.observed_at
      item ← check_evidence (record {
        kind = EvidenceKind.observation;
        resource = o.resource;
        at = at;
        reference = o.observation_id;
        disposition = some o.disposition;
      })
      place inventory cutoff o at item files)

unfoldable pub collect_observations : Inventory → ℕ → List Observation → Files → Result Files
collect_observations inventory cutoff [] files = ok files
collect_observations inventory cutoff (o ∷ rest) files = do
  next ← collect_observation inventory cutoff o files
  collect_observations inventory cutoff rest next

-- The body of the second loop: an operator's attestation.
unfoldable pub collect_verification : ℕ → InformationResource → Verification → Files → Result Files
collect_verification cutoff entry verification files = do
  item ← check_evidence (record {
    kind = EvidenceKind.attestation;
    resource = ref_of entry;
    at = some verification.at;
    reference = verification.reference;
    disposition = none;
  })
  if ltb cutoff verification.at then ok (record files { later = files.later ++ item ∷ [] }) else (do
    changed ← update (ref_of entry) (file_evidence entry verification.at item true) files.collected
    ok (record files { collected = changed }))

unfoldable collect_verifications :
    ℕ → InformationResource → List Verification → Files → Result Files
collect_verifications cutoff entry [] files = ok files
collect_verifications cutoff entry (v ∷ rest) files = do
  next ← collect_verification cutoff entry v files
  collect_verifications cutoff entry rest next

unfoldable collect_entries : ℕ → List InformationResource → Files → Result Files
unfolding collect_verifications
collect_entries cutoff [] files = ok files
collect_entries cutoff (entry ∷ rest) files = do
  next ← collect_verifications cutoff entry entry.verifications files
  collect_entries cutoff rest next

-- `_collect`
unfoldable pub collect : List Observation → Inventory → ℕ → Result Files
unfolding collect_entries
collect observations inventory cutoff = do
  files ← collect_observations inventory cutoff observations (record {
    collected = map (λ entry. (ref_of entry, nothing_collected)) inventory.entries;
    unregistered = [];
    later = [];
  })
  collect_entries cutoff inventory.entries files
