-- ===== src/CaseOrder/Returns.antt =====
-- history/order.py: the exceptions that `case_order_diagnostic` leaves.
use comply_roll.Common.{
  ℕ, ◌+◌, ◌-◌, ltb, ◌≡◌, refl, String, Option, none, some, List, ◌⊎◌, inl, inr, Bool-cases,
  Option-cases, eq_refl,
}
use comply_roll.CaseOrder.{
  attestation_of, stored_problem, is_left_out, label_or, order_against, resolved, if_computable,
  case_order_diagnostic,
}
use comply_roll.Checks.{
  DetectionAttestation, clock_problem, instant_problem, policy_problem, detection_clock,
}
use comply_roll.Checks.Clocks.{resolve_detection_time-some, resolve_detection_time-none}
use comply_roll.Checks.Order.{OrderDiagnostic, evaluation_order_diagnostic_lem}
use comply_roll.Correlation.{VulnerabilityGroup}
use comply_roll.Errors.{Result, ok, err, overflow_error, ◌>>=◌}
use comply_roll.Instant.{Datetime, Offset, to_utc, end_of_time, advance, utc, to_utc-utc}

Offset-cases : (o : Offset) → ((d : ℕ) × (o ≡ Offset.ahead d)) ⊎ ((d : ℕ) × (o ≡ Offset.behind d))
Offset-cases (Offset.ahead d) = inl (d, refl)
Offset-cases (Offset.behind d) = inr (d, refl)

to_utc-cases :
    (clock : Datetime) → ((t : ℕ) × (to_utc clock ≡ ok t)) ⊎ (to_utc clock ≡ err overflow_error)
unfolding to_utc advance
to_utc-cases clock = elim (Offset-cases clock.offset) [
  | inl (d, e) ↦ elim (Bool-cases (ltb clock.face d)) [
    | inl f ↦ inr (rw (e, f))
    | inr f ↦ inl (clock.face - d, rw (e, f))
  ]
  | inr (d, e) ↦ elim (Bool-cases (ltb (clock.face + d) end_of_time)) [
    | inl f ↦ inl (clock.face + d, rw (e, f))
    | inr f ↦ inr (rw (e, f))
  ]
]

order_against-returns :
    (label : String) (group : VulnerabilityGroup) (completed_at : Datetime) (completed : ℕ)
    (sources : Option (List String)) (at : Option ℕ) (source : String)
    → to_utc completed_at ≡ ok completed
    → (found : Option OrderDiagnostic) × (order_against label group completed_at sources at source
        ≡ ok found)
unfolding order_against
order_against-returns label group completed_at completed sources none source h = (none, refl)
order_against-returns label group completed_at completed sources (some at) source h =
    elim (Bool-cases (is_left_out sources source)) [
      | inl e ↦ (none, rw e)
      | inr e ↦
          let (found, k, _) =
            evaluation_order_diagnostic_lem label group.source_record_id (utc at) source
              completed_at (some group.source_type) at completed (to_utc-utc at) h in
          (found, rw e k)
    ]

abbrev Returns : Result (Option OrderDiagnostic) → Type 0
Returns m = (found : Option OrderDiagnostic) × (m ≡ ok found)

computed-Returns :
    (label : String) (group : VulnerabilityGroup) (attestation : DetectionAttestation)
    (completed_at : Datetime) (completed : ℕ) (sources : Option (List String))
    → to_utc completed_at ≡ ok completed
    → Returns (
        stored_problem (detection_clock group attestation)
        >>= if_computable label group attestation completed_at sources)
unfolding stored_problem if_computable resolved clock_problem instant_problem policy_problem
computed-Returns label group attestation completed_at completed sources h =
    elim (Option-cases (detection_clock group attestation)) [
      | inl e ↦
          let (found, k) =
            order_against-returns label group completed_at completed sources none "missing" h in
          (found, rw (e, resolve_detection_time-none group attestation e) k)
      | inr (clock, e) ↦ elim (to_utc-cases clock) [
        | inl (t, f) ↦
            let (source, g) = resolve_detection_time-some group attestation clock t e f in
            let (found, k) =
              order_against-returns label group completed_at completed sources (some t) source h in
            (found, rw (e, f, g) k)
        | inr f ↦ (none, rw (e, f))
      ]
    ]

-- For the group of the case and an evaluation that completed at an instant of UTC, the diagnostic
-- is always computed: a detection time that has no instant in UTC is left out before it is
-- converted, and raises nothing.
pub case_order_diagnostic_lem :
    (case_label : String) (group : VulnerabilityGroup) (completed_at : Datetime) (completed : ℕ)
    (attested_at : Option Datetime) (sources : Option (List String)) (label : Option String)
    → to_utc completed_at ≡ ok completed
    → (found : Option OrderDiagnostic) × (case_order_diagnostic group.tracking_id case_label group
          completed_at attested_at sources label
        ≡ ok found)
unfolding case_order_diagnostic
case_order_diagnostic_lem case_label group completed_at completed attested_at sources label h =
    let (found, k) =
      computed-Returns (label_or label case_label) group
        (attestation_of group.tracking_id attested_at) completed_at completed sources h in
    (found, rw (eq_refl group.tracking_id) k)
