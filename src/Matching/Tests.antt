-- ===== src/Matching/Tests.antt =====
-- One entry that selects one of two groups.
use comply_roll.Common.{◌≡◌, refl, true, false, String, some, none, List, [], ◌∷◌, All}
use comply_roll.Correlation.{VulnerabilityGroup, kept}
use comply_roll.Evaluations.{EvaluationInput}
use comply_roll.Instant.{utc}
use comply_roll.Matching.{
  Claims, Outcome, match_evaluations, match_all, decide, claim, needs_keys, claimed_by, matches,
  agrees, outcome, refuse, MatchError,
}
use comply_roll.Matching.Selection.{IsSelected, match_evaluations_lem}
use comply_roll.Models.{PainRating}

abbrev pub group_named : String → String → VulnerabilityGroup
group_named tracking_id source_record_id = record {
  tracking_id = tracking_id;
  source_type = "stig";
  source_record_id = source_record_id;
  context_key = "";
  observations = [];
  resources = [];
  source_identifiers = [];
  title = "A rule";
  description = "";
  earliest_observed_at = some (utc 1000);
  detection_sources = [];
  untimestamped_observation_ids = [];
}

abbrev entry : EvaluationInput
entry = record {
  index = 0;
  match = record { source_record_id = "V-1"; context_key = none; source_type = some "stig" };
  completed_at = utc 5000;
  is_internet_reachable = true;
  is_likely_exploitable = false;
  pain = PainRating.n3;
  potential_agency_impact = "none";
  rationale = "reviewed";
  evaluator = "analyst";
  tracking_id = none;
  is_false_positive = false;
  disposition = none;
  closed_disposition = none;
  projected_next_reduction = none;
  pain_reduction_events = [];
  supplementary_risk_information = none;
  acceptance_rationale = none;
}

abbrev groups : List VulnerabilityGroup
groups = group_named "case-1" "V-1" ∷ group_named "case-2" "V-2" ∷ []

abbrev claims : Claims
claims = ("case-1", entry) ∷ []

entry_matches : match_evaluations groups (some (entry ∷ [])) ≡ Outcome.matched claims
unfolding match_evaluations match_all decide claim needs_keys claimed_by matches agrees outcome kept
entry_matches = refl

twice :
    match_evaluations groups (some (entry ∷ entry ∷ []))
    ≡ Outcome.refused
        (MatchError.evaluation_duplicate entry entry (group_named "case-1" "V-1") ∷ [])
unfolding match_evaluations match_all decide claim needs_keys claimed_by matches agrees outcome kept
    refuse
twice = refl

match_evaluations_lem_example : All (IsSelected groups claims) (entry ∷ [])
match_evaluations_lem_example = match_evaluations_lem groups (entry ∷ []) claims entry_matches
