-- ===== src/Checks/Clocks.antt =====
-- reports/checks.py: `clock_problem` and `resolve_detection_time`.
use comply_roll.Common.{
  ℕ, ◌≡◌, ◌≢◌, ◌↔◌, ◌⊎◌, refl, true, false, String, Option, none, some, List, [], ◌∷◌, All, arith,
  Bool-cases, inl, inr, ◌==◌, eq_iff, if◌then◌else◌, ◌∙◌, subst, sym,
}
use comply_roll.Checks.{
  EvaluatedClock, Attempt, attempt, clock_problem, clock_deadlines, catching, deadline_problem,
  policy_problem, instant_problem, resolve_detection_time, detection_clock, observed_detection,
  attested_detection, or_default, for_tracking_id, is_system_group, DetectionAttestation,
}
use comply_roll.Correlation.{VulnerabilityGroup, has_partial_timestamps}
use comply_roll.Errors.{Result, ok, err, >>=-eq-ok}
use comply_roll.Instant.{Datetime, to_utc}
use comply_roll.Policy.{SelectedPolicy, PolicyDeadline}
use comply_roll.Policy.Deadlines.{
  deadline_for_rule, response_deadline, evaluation_deadline, acceptance_deadline,
}

-- Every deadline that a report adds to the clock under a policy can be computed: that of the rule
-- VER-TFR-EVU from a detection, the response deadline and that of VER-TFR-MAV from an evaluation.
abbrev pub HasRoom : ℕ → Option EvaluatedClock → SelectedPolicy → Type 0
HasRoom instant none policy =
    (due : PolicyDeadline) × (deadline_for_rule policy "VER-TFR-EVU" instant ≡ ok due)
HasRoom instant (some evaluation) policy =
    ((due : Option PolicyDeadline) × (response_deadline policy instant evaluation.pain
          evaluation.is_internet_reachable evaluation.is_likely_exploitable
        ≡ ok due))
    × ((due : PolicyDeadline) × (deadline_for_rule policy "VER-TFR-MAV" instant ≡ ok due))

abbrev AreComputed : ℕ → Option EvaluatedClock → SelectedPolicy → Type 0
AreComputed instant evaluation policy =
    All (λ (d : String × Attempt). d.1 ≡ ok tt) (clock_deadlines policy instant evaluation)

attempt-eq-ok {ℓ} : {A : Type ℓ} (m : Result A) → (attempt m ≡ ok tt) ↔ ((made : A) × (m ≡ ok made))
attempt-eq-ok (ok made) = (λ h. (made, refl), λ h. refl)
attempt-eq-ok (err e) = (λ h. cc, λ h. let k = h.1 in cc)

AreComputed-HasRoom :
    (instant : ℕ) (evaluation : Option EvaluatedClock) (policy : SelectedPolicy)
    → AreComputed instant evaluation policy ↔ HasRoom instant evaluation policy
unfolding clock_deadlines evaluation_deadline acceptance_deadline
AreComputed-HasRoom instant none policy =
    let one = attempt-eq-ok (deadline_for_rule policy "VER-TFR-EVU" instant) in
    (λ h. one.0 h.0, λ h. (one.1 h, tt))
AreComputed-HasRoom instant (some evaluation) policy =
    let response = attempt-eq-ok (
      response_deadline policy instant evaluation.pain evaluation.is_internet_reachable
        evaluation.is_likely_exploitable) in
    let acceptance = attempt-eq-ok (deadline_for_rule policy "VER-TFR-MAV" instant) in
    (λ h. (response.0 h.0, acceptance.0 h.1.0), λ h. (response.1 h.0, (acceptance.1 h.1, tt)))

deadline_problem-none :
    (policy : SelectedPolicy) (deadlines : List (String × Attempt)) (rest : Result (Option String))
    → deadline_problem policy deadlines rest ≡ ok none
    → All (λ (d : String × Attempt). d.1 ≡ ok tt) deadlines × (rest ≡ ok none)
unfolding deadline_problem catching
deadline_problem-none policy [] rest h = (tt, h)
deadline_problem-none policy ((rule_id, ok tt) ∷ deadlines) rest h =
    let (all, e) = deadline_problem-none policy deadlines rest h in ((refl, all), e)
deadline_problem-none policy ((rule_id, err e) ∷ deadlines) rest h = ground arith

deadline_problem-ok :
    (policy : SelectedPolicy) (deadlines : List (String × Attempt)) (rest : Result (Option String))
    → All (λ (d : String × Attempt). d.1 ≡ ok tt) deadlines
    → deadline_problem policy deadlines rest ≡ rest
unfolding deadline_problem catching
deadline_problem-ok policy [] rest h = refl
deadline_problem-ok policy ((rule_id, deadline) ∷ deadlines) rest h =
    rw (h.0, deadline_problem-ok policy deadlines rest h.1)

policy_problem-none :
    (policies : List SelectedPolicy) (instant : ℕ) (evaluation : Option EvaluatedClock)
    → (policy_problem policies instant evaluation ≡ ok none)
      ↔ All (HasRoom instant evaluation) policies
unfolding policy_problem
policy_problem-none [] instant evaluation = (λ h. tt, λ h. refl)
policy_problem-none (policy ∷ policies) instant evaluation =
    let deadlines = clock_deadlines policy instant evaluation in
    let rest = policy_problem policies instant evaluation in
    (
      λ h.
          let (own, e) = deadline_problem-none policy deadlines rest h in
          (
            (AreComputed-HasRoom instant evaluation policy).0 own,
            (policy_problem-none policies instant evaluation).0 e,
          ),
      λ h.
          deadline_problem-ok policy deadlines rest
            ((AreComputed-HasRoom instant evaluation policy).1 h.0)
          ∙ (policy_problem-none policies instant evaluation).1 h.1,
    )

instant_problem-none :
    (m : Result ℕ) (policies : List SelectedPolicy) (evaluation : Option EvaluatedClock)
    → (instant_problem m policies evaluation ≡ ok none)
      ↔ ((instant : ℕ) × (m ≡ ok instant) × All (HasRoom instant evaluation) policies)
unfolding instant_problem
instant_problem-none (ok instant) policies evaluation = (
  λ h. (instant, refl, (policy_problem-none policies instant evaluation).0 h),
  λ p.
      let e : ok instant ≡ ok p.0 = p.1 in
      let same : p.0 ≡ instant = cc in
      (policy_problem-none policies instant evaluation).1
        (subst (λ at. All (HasRoom at evaluation) policies) same p.2),
)
instant_problem-none (err e) policies evaluation = (λ h. ground arith, λ p. ground arith)

-- A clock has no problem exactly if it has an instant in UTC from which every deadline that a
-- report adds to it can be computed, under each policy given: that of the rule VER-TFR-EVU for a
-- detection, the response deadline and that of the rule VER-TFR-MAV for an evaluation.
pub clock_problem_lem :
    (clock : Datetime) (policies : List SelectedPolicy) (evaluation : Option EvaluatedClock)
    → (clock_problem clock policies evaluation ≡ ok none)
      ↔ ((instant : ℕ) × (to_utc clock ≡ ok instant) × All (HasRoom instant evaluation) policies)
unfolding clock_problem
clock_problem_lem clock policies evaluation =
    instant_problem-none (to_utc clock) policies evaluation

differ : (s u : String) → (s == u) ≡ false → s ≢ u
differ s u h e = let same : (s == u) ≡ true = (eq_iff s u).1 e in cc

-- What a clock that is found leaves of the detection time.
abbrev pub IsTimed : Datetime → Option ℕ → String → Type 0
IsTimed clock at source = (t : ℕ) × (to_utc clock ≡ ok t) × (at ≡ some t) × (source ≢ "missing")

attested-IsTimed :
    (clock : Datetime) (at : Option ℕ) (source : String)
    → attested_detection (some clock) ≡ ok (at, source)
    → IsTimed clock at source
unfolding attested_detection
attested-IsTimed clock at source h =
    let (t, e, k) = >>=-eq-ok (to_utc clock) (λ t. ok (some t, "attestation")) h in
    (
      t,
      e,
      ground arith,
      subst (λ s. s ≢ "missing") (ground arith) (differ "attestation" "missing" refl),
    )

attested_detection_lem :
    (o : Option Datetime) (at : Option ℕ) (source : String)
    → attested_detection o ≡ ok (at, source)
    → ((o ≡ none) × (at ≡ none) × (source ≡ "missing"))
      ⊎ ((clock : Datetime) × (o ≡ some clock) × IsTimed clock at source)
unfolding attested_detection
attested_detection_lem none at source k = inl (refl, ground arith, ground arith)
attested_detection_lem (some clock) at source k =
    inr (clock, refl, attested-IsTimed clock at source k)

source_of : VulnerabilityGroup → String
source_of group =
    if is_system_group group
    then "system"
    else if has_partial_timestamps group
    then "artifact-partial"
    else "artifact"

source_of-ne :
    (group : VulnerabilityGroup) → (source_of group ≢ "missing") × (source_of group ≢ "attestation")
unfolding source_of
source_of-ne group = elim (Bool-cases (is_system_group group)) [
  | inl e ↦ rw e (differ "system" "missing" refl, differ "system" "attestation" refl)
  | inr e ↦ elim (Bool-cases (has_partial_timestamps group)) [
    | inl f ↦
        rw (e, f)
          (differ "artifact-partial" "missing" refl, differ "artifact-partial" "attestation" refl)
    | inr f ↦ rw (e, f) (differ "artifact" "missing" refl, differ "artifact" "attestation" refl)
  ]
]

observed-IsTimed :
    (clock : Datetime) (group : VulnerabilityGroup) (attestation : DetectionAttestation)
    (at : Option ℕ) (source : String)
    → observed_detection (some clock) group attestation ≡ ok (at, source)
    → IsTimed clock at source × (source ≢ "attestation")
unfolding observed_detection source_of
observed-IsTimed clock group attestation at source h =
    let (t, e, k) = >>=-eq-ok (to_utc clock) (λ t. ok (some t, source_of group)) h in
    let same : source_of group ≡ source = ground arith in
    let ne = source_of-ne group in
    (
      (t, e, ground arith, subst (λ s. s ≢ "missing") same ne.0),
      subst (λ s. s ≢ "attestation") same ne.1,
    )

-- The detection time is the instant of the clock that `detection_clock` returns, and is missing
-- exactly if there is no such clock. An attestation counts only where no observation of the group
-- has a source time.
pub resolve_detection_time_lem :
    (group : VulnerabilityGroup) (attestation : DetectionAttestation) (at : Option ℕ)
    (source : String)
    → resolve_detection_time group attestation ≡ ok (at, source)
    → (((detection_clock group attestation ≡ none) × (at ≡ none) × (source ≡ "missing"))
        ⊎ ((clock : Datetime) × (detection_clock group attestation ≡ some clock)
            × IsTimed clock at source))
      × ((source ≢ "attestation") ⊎ (group.earliest_observed_at ≡ none))
unfolding resolve_detection_time detection_clock observed_detection or_default
resolve_detection_time_lem group attestation at source h = go group.earliest_observed_at h
  where
    go :
        (o : Option Datetime)
        → observed_detection o group attestation ≡ ok (at, source)
        → (((or_default o (for_tracking_id attestation group.tracking_id) ≡ none)
              × (at ≡ none)
              × (source ≡ "missing"))
            ⊎ ((clock : Datetime) × (or_default o (for_tracking_id attestation group.tracking_id)
                  ≡ some clock)
                × IsTimed clock at source))
          × ((source ≢ "attestation") ⊎ (o ≡ none))
    go none k = (
      attested_detection_lem (for_tracking_id attestation group.tracking_id) at source k,
      inr refl,
    )
    go (some clock) k =
        let (timed, ne) = observed-IsTimed clock group attestation at source k in
        (inr (clock, refl, timed), inl ne)

attested_detection-some :
    (o : Option Datetime) (clock : Datetime) (t : ℕ)
    → o ≡ some clock
    → to_utc clock ≡ ok t
    → attested_detection o ≡ ok (some t, "attestation")
unfolding attested_detection
attested_detection-some o clock t h k = rw (h, k)

-- A clock that computes resolves to its instant.
pub resolve_detection_time-some :
    (group : VulnerabilityGroup) (attestation : DetectionAttestation) (clock : Datetime) (t : ℕ)
    → detection_clock group attestation ≡ some clock
    → to_utc clock ≡ ok t
    → (source : String) × (resolve_detection_time group attestation ≡ ok (some t, source))
unfolding detection_clock resolve_detection_time observed_detection or_default source_of
resolve_detection_time-some group attestation clock t h k = go group.earliest_observed_at h
  where
    go :
        (o : Option Datetime)
        → or_default o (for_tracking_id attestation group.tracking_id) ≡ some clock
        → (source : String) × (observed_detection o group attestation ≡ ok (some t, source))
    go none e = (
      "attestation",
      attested_detection-some (for_tracking_id attestation group.tracking_id) clock t e k,
    )
    go (some observed) e =
        let same : observed ≡ clock = cc in
        (
          source_of group,
          subst (λ c. observed_detection (some c) group attestation ≡ ok (some t, source_of group))
              (sym same) (rw k),
        )

pub resolve_detection_time-none :
    (group : VulnerabilityGroup) (attestation : DetectionAttestation)
    → detection_clock group attestation ≡ none
    → resolve_detection_time group attestation ≡ ok (none, "missing")
unfolding detection_clock resolve_detection_time observed_detection attested_detection or_default
resolve_detection_time-none group attestation h = go group.earliest_observed_at h
  where
    go :
        (o : Option Datetime)
        → or_default o (for_tracking_id attestation group.tracking_id) ≡ none
        → observed_detection o group attestation ≡ ok (none, "missing")
    go none e = rw e
    go (some observed) e = cc
