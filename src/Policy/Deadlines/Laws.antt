-- ===== src/Policy/Deadlines/Laws.antt =====
-- policy/rules.py: the fields of a computed deadline.
use comply_roll.Common.{ℕ, ◌≡◌, String, some, List, [], ◌∷◌, arith, eq_iff, inl, inr, Bool-cases}
use comply_roll.Errors.{ok, >>=-eq-ok}
use comply_roll.Models.Text.{contains}
use comply_roll.Policy.{SelectedRule, PolicyDeadline, SelectedPolicy}
use comply_roll.Policy.Timeframe.{deadline_from}
use comply_roll.Policy.Deadlines.{
  find_rule, deadline_under, direct_deadline, deadline_for_rule, coverage_deadline,
  coverage_rule_ids,
}

pub find_rule-rule_id :
    (rules : List SelectedRule) (rule_id : String) {rule : SelectedRule}
    → find_rule rules rule_id ≡ ok rule
    → rule.rule_id ≡ rule_id
unfolding find_rule
find_rule-rule_id [] rule_id h = cc
find_rule-rule_id (r ∷ rules) rule_id {rule} h =
    ground (arith, eq_iff r.rule_id rule_id, find_rule-rule_id rules rule_id {rule = rule})

-- A deadline names its rule and force, starts where it was asked from, and falls due where the
-- rule's own timeframe puts it.
pub deadline_for_rule_lem :
    (policy : SelectedPolicy) (rule_id : String) (start : ℕ) {deadline : PolicyDeadline}
    → deadline_for_rule policy rule_id start ≡ ok deadline
    → (rule : SelectedRule) × (find_rule policy.rules rule_id ≡ ok rule)
      × (rule.timeframe ≡ some deadline.timeframe)
      × (deadline.rule_id ≡ rule_id)
      × (deadline.force ≡ rule.force)
      × (deadline.start_at ≡ start)
      × (deadline_from deadline.timeframe start policy.profile.calendar_zone ≡ ok deadline.due_at)
unfolding deadline_for_rule deadline_under
deadline_for_rule_lem policy rule_id start {deadline} h =
    let (rule, e, k) =
      >>=-eq-ok (find_rule policy.rules rule_id)
        (λ rule. direct_deadline policy rule start rule.timeframe) h in
    let named = find_rule-rule_id policy.rules rule_id {rule = rule} e in
    (rule, e, ground arith, ground arith, ground arith, ground arith, ground arith)

pub coverage_deadline_lem :
    (policy : SelectedPolicy) (rule_id : String) (start : ℕ) {deadline : PolicyDeadline}
    → coverage_deadline policy rule_id start ≡ ok deadline
    → (rule : SelectedRule) × (find_rule policy.rules rule_id ≡ ok rule)
      × (rule.timeframe ≡ some deadline.timeframe)
      × (deadline.rule_id ≡ rule_id)
      × (deadline.force ≡ rule.force)
      × (deadline.start_at ≡ start)
      × (deadline_from deadline.timeframe start policy.profile.calendar_zone ≡ ok deadline.due_at)
unfolding coverage_deadline
coverage_deadline_lem policy rule_id start {deadline} h =
    deadline_for_rule_lem policy rule_id start {deadline = deadline}
      (elim (Bool-cases (contains rule_id coverage_rule_ids)) [
        | inl e ↦ rw e at h
        | inr e ↦ cc (rw e at h)
      ])
