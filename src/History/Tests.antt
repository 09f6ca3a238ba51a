-- ===== src/History/Tests.antt =====
-- history/fold.py, on the stream of one case.
use comply_roll.Common.{ℕ, ◌≡◌, refl, ◌∷◌, [], List, String, Option, some, none}
use comply_roll.Errors.{Result, ok, err, history_error, case_not_found}
use comply_roll.Instant.{Offset, utc}
use comply_roll.Store.Json.{Fields, text, no_field, field}
use comply_roll.History.Fields.{get_text}
use comply_roll.History.Records.{EventRecord, CaseState, effective_tracking_id}
use comply_roll.History.Case.{fold_case_records, last_sequence_of}
use comply_roll.History.Case.Folded.{
  links_at, evaluations_at, reductions_at, attestation_at, disposition_at,
}
use comply_roll.History.Case.Named.{latest_given}
use comply_roll.History.Case.Summed.{typed, latest, fold_case_records-eq-ok}

-- Every text shows the same instant, five microseconds after the start of the year 1.
abbrev clock : String → Option (ℕ × Option Offset)
clock given = some (5, some (Offset.ahead 0))

abbrev any_payload : String → Fields → ℕ → Result (Unit {0})
any_payload event_type payload event_version = ok tt

abbrev event : ℕ → String → Fields → EventRecord
event n name payload = record {
  sequence = n;
  event_type = name;
  event_version = 1;
  payload = payload;
}

abbrev opener : EventRecord
opener = event 3 "case.created" (
    field "trackingId" (text "case-0123456789abcdef") (
      field "sourceType" (text "scanner") (
        field "sourceRecordId" (text "r1") (
          field "contextKey" (text "k") (
            field "title" (text "t")
              (field "description" (text "d") (field "createdAt" (text "now") no_field)))))))

abbrev attested : ℕ → EventRecord
attested n = event n "detection.attested" (
    field "detectedAt" (text "then")
      (field "rationale" (text "seen") (field "attestedAt" (text "now") no_field)))

abbrev named : EventRecord
named = event 8 "case.identified" (field "providerTrackingId" (text "V-1") no_field)

abbrev later_events : List EventRecord
later_events = attested 5 ∷ named ∷ attested 9 ∷ []

abbrev folded : CaseState
folded = record {
  tracking_id = "case-0123456789abcdef";
  provider_tracking_id = some "V-1";
  source_type = "scanner";
  source_record_id = "r1";
  context_key = "k";
  title = "t";
  description = "d";
  created_at = utc 5;
  created_sequence = 3;
  links = [];
  attestation =
      some (record { sequence = 9; detected_at = utc 5; rationale = "seen"; attested_at = utc 5 });
  evaluations = [];
  pain_reductions = [];
  disposition = none;
  identified_sequence = some 8;
  last_sequence = 9;
}

folds :
    fold_case_records clock any_payload "case-0123456789abcdef" (opener ∷ later_events) ≡ ok folded
unfolding fold_case_records
folds = refl

fold_case_records-eq-ok_example :
    (opener.event_type ≡ "case.created")
    × (get_text opener.payload "trackingId" ≡ ok "case-0123456789abcdef")
    × (folded.tracking_id ≡ "case-0123456789abcdef")
    × (links_at folded.links ≡ typed "case.observation_linked" later_events)
    × (evaluations_at folded.evaluations ≡ typed "case.evaluated" later_events)
    × (reductions_at folded.pain_reductions ≡ typed "case.pain_reduced" later_events)
    × (attestation_at folded.attestation ≡ latest none (typed "detection.attested" later_events))
    × (disposition_at folded.disposition
        ≡ latest none (typed "case.disposition_recorded" later_events))
    × (folded.identified_sequence ≡ latest none (typed "case.identified" later_events))
    × (folded.provider_tracking_id ≡ latest_given none later_events)
    × (folded.created_sequence ≡ opener.sequence)
    × (folded.last_sequence ≡ last_sequence_of clock opener.sequence later_events)
fold_case_records-eq-ok_example =
    fold_case_records-eq-ok clock any_payload "case-0123456789abcdef" opener later_events folds

renamed : effective_tracking_id folded ≡ "V-1"
unfolding effective_tracking_id
renamed = refl

not_opened :
    fold_case_records clock any_payload "case-0123456789abcdef" later_events
    ≡ err (history_error "case opener")
unfolding fold_case_records
not_opened = refl

no_stream : fold_case_records clock any_payload "c" [] ≡ err (case_not_found "c")
unfolding fold_case_records
no_stream = refl
