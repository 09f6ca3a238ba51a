-- ===== src/History/Case/Summed.antt =====
-- history/fold.py: the state of a case as a summary of the events of its stream.
use comply_roll.Common.{
  ℕ, ◌≡◌, refl, ap, sym, subst, ◌∙◌, Bool, true, false, not, ◌==◌, String, List, [], ◌∷◌, ◌++◌,
  Option, none, some, if◌then◌else◌, Bool-cases, inl, inr, eq_iff,
}
use comply_roll.Errors.{Error, Result, ok, refuse_if, >>=-eq-ok, history_error, ok_injective}
use comply_roll.Instant.{Offset}
use comply_roll.Store.Json.{Fields}
use comply_roll.History.Fields.{get_text, get_timestamp}
use comply_roll.History.Records.{EventRecord, Folding, CaseState}
use comply_roll.History.Case.Named.{latest_given, provider-fold_records}
use comply_roll.History.Case.{
  branch_of, fold_record, fold_records, unfolded, case_state, validate_all, fold_case_records,
  last_sequence_of,
}
use comply_roll.History.Case.Folded.{
  Traces, traces, traced, traces-fold_branch, links_at, evaluations_at, reductions_at,
  attestation_at, disposition_at, append_assoc,
}

-- The sequences of the events of a type.
abbrev pub typed : String → List EventRecord → List ℕ
typed event_type [] = []
typed event_type (r ∷ records) =
    if r.event_type == event_type
    then r.sequence ∷ typed event_type records
    else typed event_type records

-- The last one, or what was there before.
abbrev pub latest : Option ℕ → List ℕ → Option ℕ
latest before [] = before
latest before (n ∷ ns) = latest (some n) ns

abbrev noted : Bool → ℕ → List ℕ → List ℕ
noted here n ns = if here then ns ++ n ∷ [] else ns

abbrev replaced : Bool → ℕ → Option ℕ → Option ℕ
replaced here n before = if here then some n else before

-- One event, by the name of its type.
abbrev typed_trace : String → ℕ → Traces → Traces
typed_trace t n before = record {
  linked_at = noted (t == "case.observation_linked") n before.linked_at;
  attested_at = replaced (t == "detection.attested") n before.attested_at;
  evaluated_at = noted (t == "case.evaluated") n before.evaluated_at;
  reduced_at = noted (t == "case.pain_reduced") n before.reduced_at;
  disposed_at = replaced (t == "case.disposition_recorded") n before.disposed_at;
  identified_at = replaced (t == "case.identified") n before.identified_at;
}

-- What a type that is one of the six does.
known :
    (t name : String) (n : ℕ) (before : Traces)
    → (t == name) ≡ true
    → traced (branch_of name) n before ≡ typed_trace name n before
    → traced (branch_of t) n before ≡ typed_trace t n before
known t name n before e h =
    let same : t ≡ name = (eq_iff t name).0 e in
    subst (λ s. traced (branch_of s) n before ≡ typed_trace s n before) (sym same) h

traced-typed :
    (t : String) (n : ℕ) (before : Traces) → traced (branch_of t) n before ≡ typed_trace t n before
unfolding branch_of
traced-typed t n before = elim (Bool-cases (t == "case.observation_linked")) [
  | inl e ↦ known t "case.observation_linked" n before e refl
  | inr e1 ↦ elim (Bool-cases (t == "detection.attested")) [
    | inl e ↦ known t "detection.attested" n before e refl
    | inr e2 ↦ elim (Bool-cases (t == "case.evaluated")) [
      | inl e ↦ known t "case.evaluated" n before e refl
      | inr e3 ↦ elim (Bool-cases (t == "case.pain_reduced")) [
        | inl e ↦ known t "case.pain_reduced" n before e refl
        | inr e4 ↦ elim (Bool-cases (t == "case.disposition_recorded")) [
          | inl e ↦ known t "case.disposition_recorded" n before e refl
          | inr e5 ↦ elim (Bool-cases (t == "case.identified")) [
            | inl e ↦ known t "case.identified" n before e refl
            | inr e6 ↦ rw (e1, e2, e3, e4, e5, e6)
          ]
        ]
      ]
    ]
  ]
]

-- All events after the first.
abbrev summed : List EventRecord → Traces → Traces
summed records before = record {
  linked_at = before.linked_at ++ typed "case.observation_linked" records;
  attested_at = latest before.attested_at (typed "detection.attested" records);
  evaluated_at = before.evaluated_at ++ typed "case.evaluated" records;
  reduced_at = before.reduced_at ++ typed "case.pain_reduced" records;
  disposed_at = latest before.disposed_at (typed "case.disposition_recorded" records);
  identified_at = latest before.identified_at (typed "case.identified" records);
}

append-nil : (xs : List ℕ) → xs ++ [] ≡ xs
append-nil [] = refl
append-nil (x ∷ xs) = ap (λ l. x ∷ l) (append-nil xs)

noted-typed :
    (name : String) (r : EventRecord) (records : List EventRecord) (ns : List ℕ)
    → noted (r.event_type == name) r.sequence ns ++ typed name records
      ≡ ns ++ typed name (r ∷ records)
noted-typed name r records ns = elim (Bool-cases (r.event_type == name)) [
  | inl e ↦ rw e (append_assoc ns (r.sequence ∷ []) (typed name records))
  | inr e ↦ rw e
]

replaced-typed :
    (name : String) (r : EventRecord) (records : List EventRecord) (before : Option ℕ)
    → latest (replaced (r.event_type == name) r.sequence before) (typed name records)
      ≡ latest before (typed name (r ∷ records))
replaced-typed name r records before = elim (Bool-cases (r.event_type == name)) [
  | inl e ↦ rw e
  | inr e ↦ rw e
]

summed-cons :
    (r : EventRecord) (records : List EventRecord) (before : Traces)
    → summed records (typed_trace r.event_type r.sequence before) ≡ summed (r ∷ records) before
summed-cons r records before = λ i. record {
  linked_at = noted-typed "case.observation_linked" r records before.linked_at i;
  attested_at = replaced-typed "detection.attested" r records before.attested_at i;
  evaluated_at = noted-typed "case.evaluated" r records before.evaluated_at i;
  reduced_at = noted-typed "case.pain_reduced" r records before.reduced_at i;
  disposed_at = replaced-typed "case.disposition_recorded" r records before.disposed_at i;
  identified_at = replaced-typed "case.identified" r records before.identified_at i;
}

summed-nil : (before : Traces) → before ≡ summed [] before
summed-nil before = λ i. record {
  linked_at = sym (append-nil before.linked_at) i;
  attested_at = before.attested_at;
  evaluated_at = sym (append-nil before.evaluated_at) i;
  reduced_at = sym (append-nil before.reduced_at) i;
  disposed_at = before.disposed_at;
  identified_at = before.identified_at;
}

passed : (test : Bool) (e : Error) {u : Unit {0}} → refuse_if (not test) e ≡ ok u → test ≡ true
passed true e h = refl
passed false e h = cc

module _ (fromisoformat : String → Option (ℕ × Option Offset)) where
  traces-fold_records :
      (f : Folding) (records : List EventRecord) {g : Folding}
      → fold_records fromisoformat f records ≡ ok g
      → traces g ≡ summed records (traces f)
  unfolding fold_records fold_record
  traces-fold_records f [] {g} h = ap traces (sym (ok_injective h)) ∙ summed-nil (traces f)
  traces-fold_records f (r ∷ records) {g} h =
      let (next, made, rest) = >>=-eq-ok (fold_record fromisoformat f r) _ h in
      traces-fold_records next records rest
      ∙ ap (summed records) (
          traces-fold_branch fromisoformat (branch_of r.event_type) f r made
          ∙ traced-typed r.event_type r.sequence (traces f))
      ∙ summed-cons r records (traces f)

  -- The parts of a state that come from the fold.
  traces_of : CaseState → Traces
  traces_of state = record {
    linked_at = links_at state.links;
    attested_at = attestation_at state.attestation;
    evaluated_at = evaluations_at state.evaluations;
    reduced_at = reductions_at state.pain_reductions;
    disposed_at = disposition_at state.disposition;
    identified_at = state.identified_sequence;
  }

  case_state-eq-ok :
      (tracking_id : String) (created : EventRecord) (records : List EventRecord) (f : Folding)
      {state : CaseState}
      → case_state fromisoformat tracking_id created records f ≡ ok state
      → (state.tracking_id ≡ tracking_id)
        × (state.created_sequence ≡ created.sequence)
        × (state.last_sequence ≡ last_sequence_of fromisoformat created.sequence records)
        × (traces_of state ≡ traces f)
        × (state.provider_tracking_id ≡ f.provider_tracking_id)
  unfolding case_state traces_of
  case_state-eq-ok tracking_id created records f {state} h =
      let (source_type, e1, h1) = >>=-eq-ok (get_text created.payload "sourceType") _ h in
      let (source_record_id, e2, h2) = >>=-eq-ok (get_text created.payload "sourceRecordId") _ h1 in
      let (context_key, e3, h3) = >>=-eq-ok (get_text created.payload "contextKey") _ h2 in
      let (title, e4, h4) = >>=-eq-ok (get_text created.payload "title") _ h3 in
      let (description, e5, h5) = >>=-eq-ok (get_text created.payload "description") _ h4 in
      let (created_at, e6, h6) =
        >>=-eq-ok (get_timestamp fromisoformat created.payload "createdAt") _ h5 in
      let same = sym (ok_injective h6) in
      (
        ap (λ (s : CaseState). s.tracking_id) same,
        ap (λ (s : CaseState). s.created_sequence) same,
        ap (λ (s : CaseState). s.last_sequence) same,
        ap traces_of same,
        ap (λ (s : CaseState). s.provider_tracking_id) same,
      )

  -- A case stream that folds opens with `case.created` for the tracking id that was asked for. The
  -- links, evaluations and reductions of its state are those of its later events, each once and in
  -- their order; the attestation and the disposition are those of the latest such event, and there
  -- is none where there is no such event. The override of the tracking id is the one that the
  -- payload of the latest `case.identified` event gives. The state names its first and its last
  -- event.
  pub fold_case_records-eq-ok :
      (validate_payload : String → Fields → ℕ → Result (Unit {0})) (tracking_id : String)
      (created : EventRecord) (records : List EventRecord) {state : CaseState}
      → fold_case_records fromisoformat validate_payload tracking_id (created ∷ records) ≡ ok state
      → (created.event_type ≡ "case.created")
        × (get_text created.payload "trackingId" ≡ ok tracking_id)
        × (state.tracking_id ≡ tracking_id)
        × (links_at state.links ≡ typed "case.observation_linked" records)
        × (evaluations_at state.evaluations ≡ typed "case.evaluated" records)
        × (reductions_at state.pain_reductions ≡ typed "case.pain_reduced" records)
        × (attestation_at state.attestation ≡ latest none (typed "detection.attested" records))
        × (disposition_at state.disposition
            ≡ latest none (typed "case.disposition_recorded" records))
        × (state.identified_sequence ≡ latest none (typed "case.identified" records))
        × (state.provider_tracking_id ≡ latest_given none records)
        × (state.created_sequence ≡ created.sequence)
        × (state.last_sequence ≡ last_sequence_of fromisoformat created.sequence records)
  unfolding fold_case_records traces_of
  fold_case_records-eq-ok validate_payload tracking_id created records {state} h =
      let (u, opened, h1) =
        >>=-eq-ok
          (refuse_if (not (created.event_type == "case.created")) (history_error "case opener")) _
          h in
      let (v, valid, h2) =
        >>=-eq-ok (validate_all fromisoformat validate_payload (created ∷ records)) _ h1 in
      let (f, folded, h3) =
        >>=-eq-ok (fold_records fromisoformat (unfolded fromisoformat) records) _ h2 in
      let (recorded, read, h4) = >>=-eq-ok (get_text created.payload "trackingId") _ h3 in
      let (w, named, h5) =
        >>=-eq-ok (refuse_if (not (recorded == tracking_id)) (history_error "trackingId")) _ h4 in
      let (own, first, last, parts, named_by) = case_state-eq-ok tracking_id created records f h5 in
      let all : traces_of state ≡ summed records (traces (unfolded fromisoformat)) =
        parts ∙ traces-fold_records (unfolded fromisoformat) records folded in
      (
        (eq_iff created.event_type "case.created").0
            (passed (created.event_type == "case.created") _ opened),
        read
            ∙ ap (λ t. ok t)
                ((eq_iff recorded tracking_id).0 (passed (recorded == tracking_id) _ named)),
        own,
        ap (λ (t : Traces). t.linked_at) all,
        ap (λ (t : Traces). t.evaluated_at) all,
        ap (λ (t : Traces). t.reduced_at) all,
        ap (λ (t : Traces). t.attested_at) all,
        ap (λ (t : Traces). t.disposed_at) all,
        ap (λ (t : Traces). t.identified_at) all,
        named_by ∙ provider-fold_records fromisoformat (unfolded fromisoformat) records folded,
        first,
        last,
      )
