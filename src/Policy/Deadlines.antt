-- ===== src/Policy/Deadlines.antt =====
-- policy/rules.py: the deadlines of `SelectedPolicy`. An instant that the code first brings to UTC
-- is given here in UTC.
pub mod Laws
pub mod Response
use comply_roll.Common.{
  ℕ, Bool, true, false, not, String, Option, none, some, List, [], ◌∷◌, ◌==◌, nat_eqb, ◌&&◌,
  if◌then◌else◌,
}
use comply_roll.Errors.{
  Result, ok, err, value_error, policy_data_error, policy_rule_not_found, ◌>>=◌, ◌>>◌, refuse_if,
}
use comply_roll.Models.{PainRating, pain_value}
use comply_roll.Models.Text.{contains}
use comply_roll.Policy.{
  ResponseContext, PainTimeframe, SelectedRule, PolicyDeadline, SelectedPolicy,
}
use comply_roll.Policy.Timeframe.{RuleTimeframe, deadline_from}

abbrev pub coverage_rule_ids : List String
coverage_rule_ids =
    "VDR-TFR-MVX" ∷ "VDR-TFR-NMV" ∷ "VDR-TFR-PCD" ∷ "VDR-TFR-PDD" ∷ "VDR-TFR-PSD" ∷ []

-- `target.context is context`
abbrev pub same_context : ResponseContext → ResponseContext → Bool
same_context ResponseContext.irv_lev ResponseContext.irv_lev = true
same_context ResponseContext.nirv_lev ResponseContext.nirv_lev = true
same_context ResponseContext.nlev ResponseContext.nlev = true
same_context _ _ = false

-- `target.pain is pain`
abbrev pub same_pain : PainRating → PainRating → Bool
same_pain p q = nat_eqb (pain_value p) (pain_value q)

-- `_response_context`
unfoldable pub response_context : Bool → Bool → ResponseContext
response_context is_internet_reachable is_likely_exploitable =
    if not is_likely_exploitable
    then ResponseContext.nlev
    else if is_internet_reachable
    then ResponseContext.irv_lev
    else ResponseContext.nirv_lev

-- `SelectedRule.response_timeframe`, over the rule's targets
unfoldable pub response_timeframe :
    List PainTimeframe → PainRating → ResponseContext → Option PainTimeframe
response_timeframe [] pain context = none
response_timeframe (target ∷ targets) pain context =
    if same_pain target.pain pain && same_context target.context context
    then some target
    else response_timeframe targets pain context

-- `SelectedPolicy.rule`, over the policy's rules
unfoldable pub find_rule : List SelectedRule → String → Result SelectedRule
find_rule [] rule_id = err (policy_rule_not_found rule_id)
find_rule (rule ∷ rules) rule_id =
    if rule.rule_id == rule_id then ok rule else find_rule rules rule_id

-- `SelectedPolicy._deadline`
unfoldable pub deadline_under :
    SelectedPolicy → SelectedRule → ℕ → RuleTimeframe → String → Result PolicyDeadline
deadline_under policy rule start timeframe description = do
  due ← deadline_from timeframe start policy.profile.calendar_zone
  ok (record {
    rule_id = rule.rule_id;
    rule_name = rule.name;
    force = rule.force;
    start_at = start;
    due_at = due;
    timeframe = timeframe;
    profile = policy.profile;
    provenance = policy.provenance;
    description = description;
  })

direct_deadline : SelectedPolicy → SelectedRule → ℕ → Option RuleTimeframe → Result PolicyDeadline
direct_deadline policy rule start none = err (policy_data_error rule.rule_id)
direct_deadline policy rule start (some timeframe) = deadline_under policy rule start timeframe ""

unfoldable pub deadline_for_rule : SelectedPolicy → String → ℕ → Result PolicyDeadline
unfolding direct_deadline
deadline_for_rule policy rule_id start = do
  rule ← find_rule policy.rules rule_id
  direct_deadline policy rule start rule.timeframe

unfoldable pub evaluation_deadline : SelectedPolicy → ℕ → Result PolicyDeadline
evaluation_deadline policy detected_at = deadline_for_rule policy "VER-TFR-EVU" detected_at

unfoldable pub coverage_deadline : SelectedPolicy → String → ℕ → Result PolicyDeadline
coverage_deadline policy rule_id anchor = do
  refuse_if (not (contains rule_id coverage_rule_ids)) (value_error rule_id)
  deadline_for_rule policy rule_id anchor

unfoldable pub acceptance_deadline : SelectedPolicy → ℕ → Result PolicyDeadline
acceptance_deadline policy evaluated_at = deadline_for_rule policy "VER-TFR-MAV" evaluated_at

-- What `response_deadline` does with the target that it found.
unfoldable target_deadline :
    SelectedPolicy
    → SelectedRule
    → ℕ
    → PainRating
    → Option PainTimeframe
    → Result (Option PolicyDeadline)
target_deadline policy rule evaluated_at pain none =
    if same_pain pain PainRating.n1 then ok none else err (policy_data_error rule.rule_id)
target_deadline policy rule evaluated_at pain (some target) = do
  deadline ← deadline_under policy rule evaluated_at target.timeframe target.description
  ok (some deadline)

unfoldable pub response_deadline :
    SelectedPolicy → ℕ → PainRating → Bool → Bool → Result (Option PolicyDeadline)
unfolding target_deadline
response_deadline policy evaluated_at pain is_internet_reachable is_likely_exploitable = do
  rule ← find_rule policy.rules "VDR-TFR-PVR"
  let context = response_context is_internet_reachable is_likely_exploitable
  target_deadline policy rule evaluated_at pain
      (response_timeframe rule.pain_timeframes pain context)
