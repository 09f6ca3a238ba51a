-- ===== src/History/Case/Folded.antt =====
-- history/fold.py: what the state of a case says of the events of its stream.
use comply_roll.Common.{
  ℕ, ◌≡◌, refl, ap, sym, ◌∙◌, String, List, [], ◌∷◌, ◌++◌, map, Option, none, some,
}
use comply_roll.Errors.{ok, >>=-eq-ok, ok_injective}
use comply_roll.Instant.{Offset}
use comply_roll.Store.Json.{Fields}
use comply_roll.History.Fields.{
  get, get_text, get_timestamp, get_optional_timestamp, get_text_list, get_flag, get_rating,
  get_optional_text, get_status, get_optional_status,
}
use comply_roll.History.Records.{
  EventRecord, ObservationLink, AttestationRecord, EvaluationRecord, PainReductionRecord,
  DispositionRecord, Folding,
}
use comply_roll.History.Case.{
  Branch, observation_link, attestation_record, evaluation_record, reduction_record,
  disposition_record, fold_branch, projected_reduction,
}

-- The events that the parts of the state come from, by their sequences.
pub record Traces : Type 0 where
  pub linked_at : List ℕ
  pub attested_at : Option ℕ
  pub evaluated_at : List ℕ
  pub reduced_at : List ℕ
  pub disposed_at : Option ℕ
  pub identified_at : Option ℕ

abbrev pub attestation_at : Option AttestationRecord → Option ℕ
attestation_at none = none
attestation_at (some a) = some a.sequence

abbrev pub disposition_at : Option DispositionRecord → Option ℕ
disposition_at none = none
disposition_at (some d) = some d.sequence

abbrev pub links_at : List ObservationLink → List ℕ
links_at = map (λ (l : ObservationLink). l.sequence)

abbrev pub evaluations_at : List EvaluationRecord → List ℕ
evaluations_at = map (λ (e : EvaluationRecord). e.sequence)

abbrev pub reductions_at : List PainReductionRecord → List ℕ
reductions_at = map (λ (p : PainReductionRecord). p.sequence)

abbrev pub traces : Folding → Traces
traces f = record {
  linked_at = links_at f.links;
  attested_at = attestation_at f.attestation;
  evaluated_at = evaluations_at f.evaluations;
  reduced_at = reductions_at f.reductions;
  disposed_at = disposition_at f.disposition;
  identified_at = f.identified_sequence;
}

-- The same after one event of a branch.
abbrev pub traced : Branch → ℕ → Traces → Traces
traced Branch.linked n t = record t { linked_at = t.linked_at ++ n ∷ [] }
traced Branch.attested n t = record t { attested_at = some n }
traced Branch.evaluated n t = record t { evaluated_at = t.evaluated_at ++ n ∷ [] }
traced Branch.reduced n t = record t { reduced_at = t.reduced_at ++ n ∷ [] }
traced Branch.disposed n t = record t { disposed_at = some n }
traced Branch.identified n t = record t { identified_at = some n }
traced Branch.unexpected n t = t

map-append {ℓ κ} :
    {A : Type ℓ} {B : Type κ} (f : A → B) (xs ys : List A) → map f (xs ++ ys) ≡ map f xs ++ map f ys
map-append f [] ys = refl
map-append f (x ∷ xs) ys = ap (λ l. f x ∷ l) (map-append f xs ys)

pub append_assoc : (xs ys zs : List ℕ) → (xs ++ ys) ++ zs ≡ xs ++ (ys ++ zs)
append_assoc [] ys zs = refl
append_assoc (x ∷ xs) ys zs = ap (λ l. x ∷ l) (append_assoc xs ys zs)

module _ (fromisoformat : String → Option (ℕ × Option Offset)) where
  link-sequence :
      (n : ℕ) (body : Fields) {link : ObservationLink}
      → observation_link fromisoformat n body ≡ ok link
      → link.sequence ≡ n
  unfolding observation_link
  link-sequence n body {link} h0 =
      let (a0, e0, h1) = >>=-eq-ok (get_text body "observationId") _ h0 in
      let (a1, e1, h2) = >>=-eq-ok (get_text body "resourceId") _ h1 in
      let (a2, e2, h3) = >>=-eq-ok (get_text body "resourceType") _ h2 in
      let (a3, e3, h4) = >>=-eq-ok (get_optional_timestamp fromisoformat body "observedAt") _ h3 in
      let (a4, e4, h5) = >>=-eq-ok (get_text body "sourceTool") _ h4 in
      let (a5, e5, h6) = >>=-eq-ok (get_text body "sourceArtifactSha256") _ h5 in
      let (a6, e6, h7) = >>=-eq-ok (get_text_list body "sourceIdentifiers") _ h6 in
      sym (ap (λ (x : ObservationLink). x.sequence) (ok_injective h7))

  attestation-sequence :
      (n : ℕ) (body : Fields) {attestation : AttestationRecord}
      → attestation_record fromisoformat n body ≡ ok attestation
      → attestation.sequence ≡ n
  unfolding attestation_record
  attestation-sequence n body {attestation} h0 =
      let (a0, e0, h1) = >>=-eq-ok (get_timestamp fromisoformat body "detectedAt") _ h0 in
      let (a1, e1, h2) = >>=-eq-ok (get_text body "rationale") _ h1 in
      let (a2, e2, h3) = >>=-eq-ok (get_timestamp fromisoformat body "attestedAt") _ h2 in
      sym (ap (λ (x : AttestationRecord). x.sequence) (ok_injective h3))

  evaluation-sequence :
      (n : ℕ) (body : Fields) {evaluation : EvaluationRecord}
      → evaluation_record fromisoformat n body ≡ ok evaluation
      → evaluation.sequence ≡ n
  unfolding evaluation_record
  evaluation-sequence n body {evaluation} h0 =
      let (a0, e0, h1) =
        >>=-eq-ok (projected_reduction fromisoformat (get "projectedNextReduction" body)) _ h0 in
      let (a1, e1, h2) = >>=-eq-ok (get_timestamp fromisoformat body "completedAt") _ h1 in
      let (a2, e2, h3) = >>=-eq-ok (get_flag body "isInternetReachable") _ h2 in
      let (a3, e3, h4) = >>=-eq-ok (get_flag body "isLikelyExploitable") _ h3 in
      let (a4, e4, h5) = >>=-eq-ok (get_rating body "pain") _ h4 in
      let (a5, e5, h6) = >>=-eq-ok (get_text body "potentialAgencyImpact") _ h5 in
      let (a6, e6, h7) = >>=-eq-ok (get_text body "rationale") _ h6 in
      let (a7, e7, h8) = >>=-eq-ok (get_text body "evaluator") _ h7 in
      let (a8, e8, h9) = >>=-eq-ok (get_flag body "isFalsePositive") _ h8 in
      let (a9, e9, h10) = >>=-eq-ok (get_optional_text body "supplementaryRiskInformation") _ h9 in
      sym (ap (λ (x : EvaluationRecord). x.sequence) (ok_injective h10))

  reduction-sequence :
      (n : ℕ) (body : Fields) {reduction : PainReductionRecord}
      → reduction_record fromisoformat n body ≡ ok reduction
      → reduction.sequence ≡ n
  unfolding reduction_record
  reduction-sequence n body {reduction} h0 =
      let (a0, e0, h1) = >>=-eq-ok (get_timestamp fromisoformat body "reducedAt") _ h0 in
      let (a1, e1, h2) = >>=-eq-ok (get_rating body "rating") _ h1 in
      sym (ap (λ (x : PainReductionRecord). x.sequence) (ok_injective h2))

  disposition-sequence :
      (n : ℕ) (body : Fields) {disposition : DispositionRecord}
      → disposition_record fromisoformat n body ≡ ok disposition
      → disposition.sequence ≡ n
  unfolding disposition_record
  disposition-sequence n body {disposition} h0 =
      let (a0, e0, h1) = >>=-eq-ok (get_status body "status") _ h0 in
      let (a1, e1, h2) = >>=-eq-ok (get_optional_status body "closedDisposition") _ h1 in
      let (a2, e2, h3) = >>=-eq-ok (get_optional_text body "acceptanceRationale") _ h2 in
      let (a3, e3, h4) = >>=-eq-ok (get_timestamp fromisoformat body "recordedAt") _ h3 in
      sym (ap (λ (x : DispositionRecord). x.sequence) (ok_injective h4))

  pub traces-fold_branch :
      (branch : Branch) (f : Folding) (r : EventRecord) {g : Folding}
      → fold_branch fromisoformat branch f r ≡ ok g
      → traces g ≡ traced branch r.sequence (traces f)
  unfolding fold_branch
  traces-fold_branch Branch.linked f r {g} h =
      let (link, made, h1) = >>=-eq-ok (observation_link fromisoformat r.sequence r.payload) _ h in
      let same : g ≡ record f { links = f.links ++ link ∷ [] } = cc in
      let grown : links_at (f.links ++ link ∷ []) ≡ links_at f.links ++ r.sequence ∷ [] =
        map-append (λ (l : ObservationLink). l.sequence) f.links (link ∷ [])
        ∙ ap (λ n. links_at f.links ++ n ∷ []) (link-sequence r.sequence r.payload made) in
      ap traces same ∙ ap (λ l. record (traces f) { linked_at = l }) grown
  traces-fold_branch Branch.attested f r {g} h =
      let (a, made, h1) = >>=-eq-ok (attestation_record fromisoformat r.sequence r.payload) _ h in
      let same : g ≡ record f { attestation = some a } = cc in
      ap traces same
      ∙ ap (λ n. record (traces f) { attested_at = some n })
          (attestation-sequence r.sequence r.payload made)
  traces-fold_branch Branch.evaluated f r {g} h =
      let (e, made, h1) = >>=-eq-ok (evaluation_record fromisoformat r.sequence r.payload) _ h in
      let same : g ≡ record f { evaluations = f.evaluations ++ e ∷ [] } = cc in
      let grown : evaluations_at (f.evaluations ++ e ∷ [])
          ≡ evaluations_at f.evaluations ++ r.sequence ∷ [] =
        map-append (λ (x : EvaluationRecord). x.sequence) f.evaluations (e ∷ [])
        ∙ ap (λ n. evaluations_at f.evaluations ++ n ∷ [])
            (evaluation-sequence r.sequence r.payload made) in
      ap traces same ∙ ap (λ l. record (traces f) { evaluated_at = l }) grown
  traces-fold_branch Branch.reduced f r {g} h =
      let (p, made, h1) = >>=-eq-ok (reduction_record fromisoformat r.sequence r.payload) _ h in
      let same : g ≡ record f { reductions = f.reductions ++ p ∷ [] } = cc in
      let grown : reductions_at (f.reductions ++ p ∷ [])
          ≡ reductions_at f.reductions ++ r.sequence ∷ [] =
        map-append (λ (x : PainReductionRecord). x.sequence) f.reductions (p ∷ [])
        ∙ ap (λ n. reductions_at f.reductions ++ n ∷ [])
            (reduction-sequence r.sequence r.payload made) in
      ap traces same ∙ ap (λ l. record (traces f) { reduced_at = l }) grown
  traces-fold_branch Branch.disposed f r {g} h =
      let (d, made, h1) = >>=-eq-ok (disposition_record fromisoformat r.sequence r.payload) _ h in
      let same : g ≡ record f { disposition = some d } = cc in
      ap traces same
      ∙ ap (λ n. record (traces f) { disposed_at = some n })
          (disposition-sequence r.sequence r.payload made)
  traces-fold_branch Branch.identified f r {g} h =
      let (p, made, h1) = >>=-eq-ok (get_text r.payload "providerTrackingId") _ h in
      let same : g
          ≡ record f { provider_tracking_id = some p; identified_sequence = some r.sequence } =
        cc in
      ap traces same
  traces-fold_branch Branch.unexpected f r {g} h = cc
