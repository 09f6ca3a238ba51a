-- ===== src/Matching.antt =====
-- reports/records.py: `_matches` and `_match_evaluations`, which give each evaluation entry the
-- one vulnerability that it selects. A refusal is the data that its diagnostic shows.
pub mod Selection
mod Tests
use comply_roll.Common.{
  Bool, true, false, ◌&&◌, ◌||◌, String, Option, none, some, List, [], ◌∷◌, ◌++◌, ◌==◌, is_none,
  if◌then◌else◌,
}
use comply_roll.Correlation.{VulnerabilityGroup, kept}
use comply_roll.Evaluations.{EvaluationInput, EvaluationMatch}
use comply_roll.Models.Checks.{reserved_source_type_prefix}
use text.Mathlib.Text.{starts_with}

-- `key is None or key == value`
unfoldable pub agrees : Option String → String → Bool
agrees none value = true
agrees (some key) value = key == value

-- `_matches`
unfoldable pub matches : EvaluationInput → VulnerabilityGroup → Bool
matches entry group =
    (entry.match.source_record_id == group.source_record_id)
    && agrees entry.match.context_key group.context_key
    && agrees entry.match.source_type group.source_type

pub data MatchError : Type 0 where
  evaluation_unmatched : EvaluationInput → MatchError
  evaluation_ambiguous : EvaluationInput → List VulnerabilityGroup → MatchError
  evaluation_context_key_required : EvaluationInput → VulnerabilityGroup → MatchError
  evaluation_duplicate : EvaluationInput → EvaluationInput → VulnerabilityGroup → MatchError

-- `claimed_by`, which holds what `matched` does
abbrev pub Claims : Type 0
Claims = List (String × EvaluationInput)

-- `claimed_by.get(tracking_id)`
unfoldable pub claimed_by : String → Claims → Option EvaluationInput
claimed_by tracking_id [] = none
claimed_by tracking_id ((id, entry) ∷ rest) =
    if id == tracking_id then some entry else claimed_by tracking_id rest

pub record Matching : Type 0 where
  pub claims : Claims
  pub errors : List MatchError

-- `errors.append(error)`, and `continue`
unfoldable refuse : MatchError → Matching → Matching
refuse error state = record state { errors = state.errors ++ error ∷ [] }

-- A system record needs an entry that states all three keys.
unfoldable needs_keys : EvaluationInput → VulnerabilityGroup → Bool
needs_keys entry group =
    starts_with group.source_type reserved_source_type_prefix
    && (is_none entry.match.context_key || is_none entry.match.source_type)

unfoldable claim :
    EvaluationInput → VulnerabilityGroup → Option EvaluationInput → Matching → Matching
unfolding refuse
claim entry group (some previous) state =
    refuse (MatchError.evaluation_duplicate previous entry group) state
claim entry group none state = record state {
  claims = state.claims ++ (group.tracking_id, entry) ∷ [];
}

-- What becomes of an entry with its candidates.
unfoldable decide : EvaluationInput → List VulnerabilityGroup → Matching → Matching
unfolding refuse claim needs_keys
decide entry [] state = refuse (MatchError.evaluation_unmatched entry) state
decide entry (group ∷ []) state =
    if needs_keys entry group
    then refuse (MatchError.evaluation_context_key_required entry group) state
    else claim entry group (claimed_by group.tracking_id state.claims) state
decide entry (group ∷ other ∷ rest) state =
    refuse (MatchError.evaluation_ambiguous entry (group ∷ other ∷ rest)) state

-- The loop over the entries.
unfoldable match_all : List VulnerabilityGroup → List EvaluationInput → Matching → Matching
unfolding decide
match_all groups [] state = state
match_all groups (entry ∷ rest) state =
    match_all groups rest (decide entry (kept (matches entry) groups) state)

pub data Outcome : Type 0 where
  matched : Claims → Outcome
  refused : List MatchError → Outcome

-- `if errors: raise ReportCompileError(errors)`
unfoldable outcome : Claims → List MatchError → Outcome
outcome claims [] = Outcome.matched claims
outcome claims (error ∷ errors) = Outcome.refused (error ∷ errors)

-- `_match_evaluations`
unfoldable pub match_evaluations : List VulnerabilityGroup → Option (List EvaluationInput) → Outcome
unfolding match_all outcome
match_evaluations groups none = Outcome.matched []
match_evaluations groups (some entries) =
    let state = match_all groups entries (record { claims = []; errors = [] }) in
    outcome state.claims state.errors
