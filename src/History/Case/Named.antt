-- ===== src/History/Case/Named.antt =====
-- history/fold.py: the override of the tracking id of a case.
use comply_roll.Common.{
  ◌≡◌, refl, ap, sym, subst, ◌∙◌, ℕ, Bool, true, false, ◌==◌, String, List, [], ◌∷◌, Option, none,
  some, if◌then◌else◌, Bool-cases, inl, inr, eq_iff, arith,
}
use comply_roll.Errors.{Result, ok, err, >>=-eq-ok, ok_injective}
use comply_roll.Instant.{Offset}
use comply_roll.History.Records.{EventRecord, Folding}
use comply_roll.History.Fields.{get_text}
use comply_roll.History.Case.{
  Branch, branch_of, fold_branch, fold_record, fold_records, observation_link, attestation_record,
  evaluation_record, reduction_record, disposition_record,
}

-- What `get_text` reads, where it does.
abbrev pub text_read : Result String → Option String
text_read (err raised) = none
text_read (ok given) = some given

-- The tracking id that the latest event of the type gives, or what was there before.
abbrev pub latest_given : Option String → List EventRecord → Option String
latest_given before [] = before
latest_given before (r ∷ records) =
    if r.event_type == "case.identified"
    then latest_given (text_read (get_text r.payload "providerTrackingId")) records
    else latest_given before records

abbrev given_by : Bool → EventRecord → Option String → Option String
given_by here r before =
    if here then text_read (get_text r.payload "providerTrackingId") else before

abbrev is_identified : Branch → Bool
is_identified Branch.identified = true
is_identified _ = false

is_identified-branch_of : (t : String) → is_identified (branch_of t) ≡ (t == "case.identified")
unfolding branch_of
is_identified-branch_of t = elim (Bool-cases (t == "case.identified")) [
  | inl e ↦
      let same : t ≡ "case.identified" = (eq_iff t "case.identified").0 e in
      subst (λ s. is_identified (branch_of s) ≡ (s == "case.identified")) (sym same) refl
  | inr e ↦ ground (arith, e)
]

abbrev provider : Folding → Option String
provider f = f.provider_tracking_id

given_cons :
    (r : EventRecord) (records : List EventRecord) (before : Option String)
    → latest_given (given_by (r.event_type == "case.identified") r before) records
      ≡ latest_given before (r ∷ records)
given_cons r records before = elim (Bool-cases (r.event_type == "case.identified")) [
  | inl e ↦ rw e
  | inr e ↦ rw e
]

module _ (fromisoformat : String → Option (ℕ × Option Offset)) where
  provider-fold_branch :
      (branch : Branch) (f : Folding) (r : EventRecord) {g : Folding}
      → fold_branch fromisoformat branch f r ≡ ok g
      → g.provider_tracking_id ≡ given_by (is_identified branch) r f.provider_tracking_id
  unfolding fold_branch
  provider-fold_branch Branch.linked f r h =
      let (made, read, h1) = >>=-eq-ok (observation_link fromisoformat r.sequence r.payload) _ h in
      sym (ap provider (ok_injective h1))
  provider-fold_branch Branch.attested f r h =
      let (made, read, h1) =
        >>=-eq-ok (attestation_record fromisoformat r.sequence r.payload) _ h in
      sym (ap provider (ok_injective h1))
  provider-fold_branch Branch.evaluated f r h =
      let (made, read, h1) = >>=-eq-ok (evaluation_record fromisoformat r.sequence r.payload) _ h in
      sym (ap provider (ok_injective h1))
  provider-fold_branch Branch.reduced f r h =
      let (made, read, h1) = >>=-eq-ok (reduction_record fromisoformat r.sequence r.payload) _ h in
      sym (ap provider (ok_injective h1))
  provider-fold_branch Branch.disposed f r h =
      let (made, read, h1) =
        >>=-eq-ok (disposition_record fromisoformat r.sequence r.payload) _ h in
      sym (ap provider (ok_injective h1))
  provider-fold_branch Branch.identified f r h =
      let (made, read, h1) = >>=-eq-ok (get_text r.payload "providerTrackingId") _ h in
      sym (ap provider (ok_injective h1)) ∙ sym (ap text_read read)
  provider-fold_branch Branch.unexpected f r h = cc

  pub provider-fold_records :
      (f : Folding) (records : List EventRecord) {g : Folding}
      → fold_records fromisoformat f records ≡ ok g
      → g.provider_tracking_id ≡ latest_given f.provider_tracking_id records
  unfolding fold_records fold_record
  provider-fold_records f [] h = sym (ap provider (ok_injective h))
  provider-fold_records f (r ∷ records) h =
      let (next, made, rest) = >>=-eq-ok (fold_record fromisoformat f r) _ h in
      provider-fold_records next records rest
      ∙ ap (λ p. latest_given p records)
          (provider-fold_branch (branch_of r.event_type) f r made
            ∙ ap (λ b. given_by b r f.provider_tracking_id) (is_identified-branch_of r.event_type))
      ∙ given_cons r records f.provider_tracking_id
