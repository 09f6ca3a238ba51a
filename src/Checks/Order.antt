-- ===== src/Checks/Order.antt =====
-- reports/checks.py: `evaluation_order_diagnostic`.
use comply_roll.Common.{
  ℕ, Bool, ◌≡◌, refl, true, false, String, Option, none, some, leb, ◌==◌, ◌⊎◌, arith, if◌then◌else◌,
  ◌||◌, Bool-cases, inl, inr, subst, sym, eq_iff, ◌∙◌,
}
use comply_roll.Checks.{coverage_gap_source_type}
use comply_roll.Errors.{Result, ok, ◌>>=◌}
use comply_roll.Instant.{Datetime, to_utc}

-- `DiagnosticLevel`
pub data DiagnosticLevel : Type 0 where
  info warning error : DiagnosticLevel

-- What the texts of the two messages show.
pub record OrderMessage : Type 0 where
  pub tracking_id : String
  pub completed : ℕ
  pub detected : ℕ
  pub detected_source : String
  pub remedy : Option String

-- `ReportDiagnostic`
pub record OrderDiagnostic : Type 0 where
  pub level : DiagnosticLevel
  pub code : String
  pub message : OrderMessage
  pub location : String

-- `_ORDER_REMEDIES["system"]`
abbrev system_order_remedy : String
system_order_remedy =
    "a detection process failure is detected when it is recorded, at the ingest --as-of in history and at the run's as-of on the stateless path, so evaluate it at or after that instant, correct completedAt, or on the stateless path report with an --as-of no later than completedAt"

-- `_ORDER_REMEDIES.get(detected_source)`
unfoldable order_remedy : String → Option String
order_remedy detected_source =
    if detected_source == "artifact"
    then some "supply the artifact that detected it earlier, or correct completedAt"
    else if detected_source == "attestation"
    then some "attest an earlier detection time, or correct completedAt"
    else if detected_source == "system"
    then some system_order_remedy
    else none

-- `_SYSTEM_ORDER_REMEDIES[COVERAGE_GAP_SOURCE_TYPE]`
abbrev gap_order_remedy : String
gap_order_remedy =
    "a coverage gap is detected when its window closed, so evaluate it at or after that instant, or correct completedAt"

-- `_SYSTEM_ORDER_REMEDIES.get(source_type, remedy)`
unfoldable system_remedy : Option String → Option String → Option String
system_remedy none remedy = remedy
system_remedy (some source_type) remedy =
    if source_type == coverage_gap_source_type then some gap_order_remedy else remedy

unfoldable own_remedy : String → Option String → Option String
unfolding order_remedy system_remedy
own_remedy detected_source source_type =
    if detected_source == "system"
    then system_remedy source_type (order_remedy detected_source)
    else order_remedy detected_source

unfoldable refused_before :
    String → String → ℕ → ℕ → String → Option String → Option OrderDiagnostic
refused_before tracking_id location completed detected detected_source none = none
refused_before tracking_id location completed detected detected_source (some remedy) =
    some (record {
      level = DiagnosticLevel.error;
      code = "evaluation_before_detection";
      message = record {
        tracking_id = tracking_id;
        completed = completed;
        detected = detected;
        detected_source = detected_source;
        remedy = some remedy;
      };
      location = location;
    })

-- After the two conversions to UTC.
unfoldable ordered_at : String → String → ℕ → String → ℕ → Option String → Option OrderDiagnostic
unfolding refused_before own_remedy
ordered_at tracking_id location detected detected_source completed source_type =
    if leb detected completed
    then none
    else if detected_source == "artifact-partial"
    then some (record {
      level = DiagnosticLevel.warning;
      code = "evaluation_before_partial_detection";
      message = record {
        tracking_id = tracking_id;
        completed = completed;
        detected = detected;
        detected_source = detected_source;
        remedy = none;
      };
      location = location;
    })
    else refused_before tracking_id location completed detected detected_source
        (own_remedy detected_source source_type)

-- `evaluation_order_diagnostic`
unfoldable pub evaluation_order_diagnostic :
    String → String → Datetime → String → Datetime → Option String → Result (Option OrderDiagnostic)
unfolding ordered_at
evaluation_order_diagnostic tracking_id location detected_at detected_source completed_at
      source_type =
    do
      completed ← to_utc completed_at
      detected ← to_utc detected_at
      ok (ordered_at tracking_id location detected detected_source completed source_type)

-- A detection time that is the record's own.
abbrev pub is_own_source : String → Bool
is_own_source detected_source =
    detected_source == "artifact" || detected_source == "attestation" || detected_source == "system"

abbrev pub level_of : Option OrderDiagnostic → Option DiagnosticLevel
level_of none = none
level_of (some diagnostic) = some diagnostic.level

own_source-cases :
    (s : String) → is_own_source s ≡ true → (s ≡ "artifact") ⊎ (s ≡ "attestation") ⊎ (s ≡ "system")
own_source-cases s h = elim (Bool-cases (s == "artifact")) [
  | inl e ↦ inl ((eq_iff s "artifact").0 e)
  | inr e ↦ elim (Bool-cases (s == "attestation")) [
    | inl f ↦ inr (inl ((eq_iff s "attestation").0 f))
    | inr f ↦ inr (inr ((eq_iff s "system").0 (rw (e, f) at h)))
  ]
]

system_remedy-some :
    (source_type : Option String) (remedy : String)
    → (r : String) × (system_remedy source_type (some remedy) ≡ some r)
unfolding system_remedy
system_remedy-some none remedy = (remedy, refl)
system_remedy-some (some t) remedy = elim (Bool-cases (t == coverage_gap_source_type)) [
  | inl e ↦ (gap_order_remedy, rw e)
  | inr e ↦ (remedy, rw e)
]

abbrev LateLevel : String → ℕ → ℕ → DiagnosticLevel → Type 0
LateLevel s detected completed level =
    (tracking_id location : String) (source_type : Option String)
    → level_of (ordered_at tracking_id location detected s completed source_type) ≡ some level

late_own :
    (s : String) (detected completed : ℕ)
    → leb detected completed ≡ false
    → is_own_source s ≡ true
    → LateLevel s detected completed DiagnosticLevel.error
unfolding ordered_at refused_before own_remedy order_remedy
late_own s detected completed late own = elim (own_source-cases s own) [
  | inl e ↦
      subst (λ s. LateLevel s detected completed DiagnosticLevel.error) (sym e)
        (λ tracking_id location source_type. rw late)
  | inr (inl e) ↦
      subst (λ s. LateLevel s detected completed DiagnosticLevel.error) (sym e)
        (λ tracking_id location source_type. rw late)
  | inr (inr e) ↦
      subst (λ s. LateLevel s detected completed DiagnosticLevel.error) (sym e)
        (λ tracking_id location source_type.
          rw (late, (system_remedy-some source_type system_order_remedy).1))
]

late_partial :
    (s : String) (detected completed : ℕ)
    → leb detected completed ≡ false
    → s ≡ "artifact-partial"
    → LateLevel s detected completed DiagnosticLevel.warning
unfolding ordered_at
late_partial s detected completed late e =
    subst (λ s. LateLevel s detected completed DiagnosticLevel.warning) (sym e)
      (λ tracking_id location source_type. rw late)

-- The level that the order of the two instants and the source of the detection time ask for.
abbrev pub level_for : ℕ → ℕ → String → Option DiagnosticLevel
level_for detected completed detected_source =
    if leb detected completed
    then none
    else if is_own_source detected_source
    then some DiagnosticLevel.error
    else if detected_source == "artifact-partial"
    then some DiagnosticLevel.warning
    else none

on_time :
    (s : String) (detected completed : ℕ)
    → leb detected completed ≡ true
    → (tracking_id location : String) (source_type : Option String)
    → level_of (ordered_at tracking_id location detected s completed source_type)
      ≡ level_for detected completed s
unfolding ordered_at
on_time s detected completed le tracking_id location source_type = rw le

late_other :
    (s : String) (detected completed : ℕ)
    → leb detected completed ≡ false
    → is_own_source s ≡ false
    → (s == "artifact-partial") ≡ false
    → (tracking_id location : String) (source_type : Option String)
    → level_of (ordered_at tracking_id location detected s completed source_type) ≡ none
unfolding ordered_at refused_before own_remedy order_remedy
late_other s detected completed late other full tracking_id location source_type = ground arith

-- An evaluation that completed at or after the detection raises nothing. One that completed
-- before it raises an error where the detection time is the record's own, whatever the source
-- type, a warning where it is partial, and nothing for any other source. Both clocks have an
-- instant in UTC.
pub evaluation_order_diagnostic_lem :
    (tracking_id location : String) (detected_at : Datetime) (detected_source : String)
    (completed_at : Datetime) (source_type : Option String) (detected completed : ℕ)
    → to_utc detected_at ≡ ok detected
    → to_utc completed_at ≡ ok completed
    → (found : Option OrderDiagnostic) × (evaluation_order_diagnostic tracking_id location
          detected_at detected_source completed_at source_type
        ≡ ok found)
      × (level_of found ≡ level_for detected completed detected_source)
unfolding evaluation_order_diagnostic
evaluation_order_diagnostic_lem tracking_id location detected_at s completed_at source_type detected
      completed h k =
    (ordered_at tracking_id location detected s completed source_type, rw (h, k), level)
  where
    level :
        level_of (ordered_at tracking_id location detected s completed source_type)
        ≡ level_for detected completed s
    level = elim (Bool-cases (leb detected completed)) [
      | inl le ↦ on_time s detected completed le tracking_id location source_type
      | inr late ↦ elim (Bool-cases (is_own_source s)) [
        | inl own ↦
            late_own s detected completed late own tracking_id location source_type ∙ rw (late, own)
        | inr other ↦ elim (Bool-cases (s == "artifact-partial")) [
          | inl e ↦
              late_partial s detected completed late ((eq_iff s "artifact-partial").0 e) tracking_id
                location source_type
              ∙ rw (late, other, e)
          | inr e ↦
              late_other s detected completed late other e tracking_id location source_type
              ∙ rw (late, other, e)
        ]
      ]
    ]
