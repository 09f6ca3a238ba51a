-- ===== src/Coverage/Collect/Cutoff.antt =====
-- reports/coverage.py: `_collect` and the cutoff of a projection.
use comply_roll.Common.{
  ℕ, Bool, ◌≡◌, ◌≤◌, ◌<◌, false, Option, some, none, [], ◌∷◌, All, All-append, subst, Bool-cases,
  inl, inr, arith, ltb-false→le,
}
use comply_roll.Coverage.Collect.{
  Collected, Filed, Files, update, same_ref, file_evidence, stopped_before, is_row, verifies_entry,
  is_later, file_observation, place_registered, count_up,
}
use comply_roll.Coverage.Evidence.{CoverageEvidence, Timed}
use comply_roll.Errors.{ok, >>=-eq-ok, ◌>>=◌}
use comply_roll.Inventory.{InformationResource, ref_of}
use comply_roll.Models.{Observation, ResourceRef}

-- What is filed of an entry was observed at or before the cutoff.
abbrev pub IsWithin : ℕ → Collected → Type 0
IsWithin cutoff found =
    All (λ (t : Timed). t.0 ≤ cutoff) found.examined
    × All (λ (t : Timed). t.0 ≤ cutoff) found.verifying

abbrev pub IsAfter : ℕ → CoverageEvidence → Type 0
IsAfter cutoff item = (at : ℕ) × (item.at ≡ some at) × (cutoff < at)

-- The cutoff parts the evidence: what is filed lies within it, what is later after it.
abbrev pub IsParted : ℕ → Files → Type 0
IsParted cutoff files =
    All (λ (p : ResourceRef × Collected). IsWithin cutoff p.1) files.collected
    × All (IsAfter cutoff) files.later

update-All :
    (P : Collected → Type 0) (ref : ResourceRef) (f : Collected → Collected) (filed changed : Filed)
    → ((found : Collected) → P found → P (f found))
    → All (λ (p : ResourceRef × Collected). P p.1) filed
    → update ref f filed ≡ ok changed
    → All (λ (p : ResourceRef × Collected). P p.1) changed
unfolding update
update-All P ref f [] changed k h e = ground arith
update-All P ref f ((r, found) ∷ rest) changed k h e = elim (Bool-cases (same_ref r ref)) [
  | inl s ↦
      let same : (r, f found) ∷ rest ≡ changed = ground arith in
      subst (All (λ (p : ResourceRef × Collected). P p.1)) same (k found h.0, h.1)
  | inr s ↦
      let (onward, u, v) = >>=-eq-ok (update ref f rest) (λ c. ok ((r, found) ∷ c)) (rw s at e) in
      let same : (r, found) ∷ onward ≡ changed = ground arith in
      subst (All (λ (p : ResourceRef × Collected). P p.1)) same
        (h.0, update-All P ref f rest onward k h.1 u)
]

pub file_evidence-IsWithin :
    (cutoff at : ℕ) (entry : InformationResource) (item : CoverageEvidence) (verifies : Bool)
    (found : Collected)
    → at ≤ cutoff
    → IsWithin cutoff found
    → IsWithin cutoff (file_evidence entry at item verifies found)
unfolding file_evidence
file_evidence-IsWithin cutoff at entry item verifies found le h =
    elim (Bool-cases (stopped_before entry.decommissioned_at at)) [
      | inl e ↦ rw e h
      | inr e ↦
          let examined =
            All-append (λ (t : Timed). t.0 ≤ cutoff) found.examined ((at, item) ∷ []) h.0
              (le, tt) in
          elim (Bool-cases verifies) [
            | inl v ↦
                rw (e, v)
                  (
                    examined,
                    All-append (λ (t : Timed). t.0 ≤ cutoff) found.verifying ((at, item) ∷ []) h.1
                        (le, tt),
                  )
            | inr v ↦ rw (e, v) (examined, h.1)
          ]
    ]

file_observation-IsWithin :
    (cutoff : ℕ) (o : Observation) (entry : InformationResource) (at : Option ℕ)
    (item : CoverageEvidence) (found : Collected)
    → is_later at cutoff ≡ false
    → IsWithin cutoff found
    → IsWithin cutoff (file_observation o entry at item found)
unfolding file_observation is_later
file_observation-IsWithin cutoff o entry none item found e h = h
file_observation-IsWithin cutoff o entry (some at) item found e h =
    file_evidence-IsWithin cutoff at entry item (verifies_entry o entry) found
      (ltb-false→le cutoff at e) h

pub under_ok : (P : Files → Type 0) (a b : Files) → ok a ≡ ok b → P a → P b
under_ok P a b e h = let same : a ≡ b = cc in subst P same h

abbrev pub with_collected : Files → Filed → Files
with_collected files changed = record files { collected = changed }

-- A change of what is filed of one entry.
pub update-IsParted :
    (cutoff : ℕ) (ref : ResourceRef) (f : Collected → Collected) (files next : Files)
    → ((found : Collected) → IsWithin cutoff found → IsWithin cutoff (f found))
    → IsParted cutoff files
    → (update ref f files.collected >>= λ changed. ok (with_collected files changed)) ≡ ok next
    → IsParted cutoff next
update-IsParted cutoff ref f files next k h e =
    let (changed, u, v) =
      >>=-eq-ok (update ref f files.collected) (λ c. ok (with_collected files c)) e in
    under_ok (IsParted cutoff) (with_collected files changed) next v
      (update-All (IsWithin cutoff) ref f files.collected changed k h.0 u, h.1)

pub place_registered-IsParted :
    (cutoff : ℕ) (o : Observation) (entry : Option InformationResource) (at : Option ℕ)
    (item : CoverageEvidence) (files next : Files)
    → is_later at cutoff ≡ false
    → IsParted cutoff files
    → place_registered o entry at item files ≡ ok next
    → IsParted cutoff next
unfolding place_registered
place_registered-IsParted cutoff o none at item files next e h k =
    under_ok (IsParted cutoff)
      (record files { unregistered = count_up o.resource files.unregistered }) next k h
place_registered-IsParted cutoff o (some entry) at item files next e h k =
    elim (Bool-cases (is_row o)) [
      | inl r ↦ under_ok (IsParted cutoff) files next (rw r at k) h
      | inr r ↦
          update-IsParted cutoff (ref_of entry) (file_observation o entry at item) files next
            (λ found w. file_observation-IsWithin cutoff o entry at item found e w) h (rw r at k)
    ]
