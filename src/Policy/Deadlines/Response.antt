-- ===== src/Policy/Deadlines/Response.antt =====
-- policy/rules.py: what `SelectedPolicy.response_deadline` returns.
use comply_roll.Common.{
  ℕ, ◌≡◌, ◌⊎◌, refl, Never, All, Bool, true, false, ◌&&◌, Option, none, some, List, [], ◌∷◌, arith,
  inl, inr, Bool-cases, Option-cases, subst, sym, ap, ◌∙◌,
}
use comply_roll.Errors.{ok, >>=-eq-ok}
use comply_roll.Models.{PainRating}
use comply_roll.Policy.{
  PainTimeframe, SelectedRule, PolicyDeadline, SelectedPolicy, ResponseContext,
}
use comply_roll.Policy.Timeframe.{deadline_from}
use comply_roll.Policy.Deadlines.Laws.{find_rule-rule_id}
use comply_roll.Policy.Deadlines.{
  find_rule, deadline_under, response_timeframe, response_deadline, target_deadline, same_context,
  same_pain, response_context,
}

same_pain-eq : (p q : PainRating) → same_pain p q ≡ true → p ≡ q
same_pain-eq p q k = ground arith

same_context-eq : (p q : ResponseContext) → same_context p q ≡ true → p ≡ q
same_context-eq p q k = ground arith

response_timeframe-some :
    (targets : List PainTimeframe) (pain : PainRating) (context : ResponseContext)
    (target : PainTimeframe)
    → response_timeframe targets pain context ≡ some target
    → (target.pain ≡ pain) × (target.context ≡ context)
unfolding response_timeframe
response_timeframe-some [] pain context target h = cc
response_timeframe-some (t ∷ targets) pain context target h =
    elim (Bool-cases (same_pain t.pain pain && same_context t.context context)) [
      | inl e ↦
          let same : t ≡ target = ground arith in
          subst (λ (u : PainTimeframe). (u.pain ≡ pain) × (u.context ≡ context)) same
            (
              same_pain-eq t.pain pain (ground arith),
              same_context-eq t.context context (ground arith),
            )
      | inr e ↦ response_timeframe-some targets pain context target (rw e at h)
    ]

-- Whether an evaluation is reachable from the internet and likely to be exploited, as a context.
abbrev pub context_for : Bool → Bool → ResponseContext
context_for true true = ResponseContext.irv_lev
context_for false true = ResponseContext.nirv_lev
context_for true false = ResponseContext.nlev
context_for false false = ResponseContext.nlev

response_context-context_for :
    (reachable exploitable : Bool)
    → response_context reachable exploitable ≡ context_for reachable exploitable
unfolding response_context
response_context-context_for true true = refl
response_context-context_for false true = refl
response_context-context_for true false = refl
response_context-context_for false false = refl

-- A target for a rating and a context.
abbrev pub IsFor : PainRating → ResponseContext → PainTimeframe → Type 0
IsFor pain context target = (target.pain ≡ pain) × (target.context ≡ context)

-- The first target of a list for a rating and a context, and that none is there.
abbrev pub IsFirst : List PainTimeframe → PainRating → ResponseContext → PainTimeframe → Type 0
IsFirst [] pain context target = Never
IsFirst (t ∷ targets) pain context target =
    ((t ≡ target) × IsFor pain context target)
    ⊎ ((IsFor pain context t → ⊥) × IsFirst targets pain context target)

same_pain_refl : (p : PainRating) → same_pain p p ≡ true
same_pain_refl p = ground arith

same_context_refl : (p : ResponseContext) → same_context p p ≡ true
same_context_refl p = ground arith

other_target :
    (t : PainTimeframe) (pain : PainRating) (context : ResponseContext)
    → (same_pain t.pain pain && same_context t.context context) ≡ false
    → IsFor pain context t
    → ⊥
other_target t pain context e (p, c) =
    let own : (same_pain t.pain pain && same_context t.context context) ≡ true =
      rw (p, c, same_pain_refl pain, same_context_refl context) in
    let apart : true ≡ false = sym own ∙ e in cc

response_timeframe-IsFirst :
    (targets : List PainTimeframe) (pain : PainRating) (context : ResponseContext)
    (target : PainTimeframe)
    → response_timeframe targets pain context ≡ some target
    → IsFirst targets pain context target
unfolding response_timeframe
response_timeframe-IsFirst [] pain context target h = cc
response_timeframe-IsFirst (t ∷ targets) pain context target h =
    elim (Bool-cases (same_pain t.pain pain && same_context t.context context)) [
      | inl e ↦
          let same : t ≡ target = ground arith in
          inl (same, response_timeframe-some (t ∷ targets) pain context target h)
      | inr e ↦ inr (
        other_target t pain context e,
        response_timeframe-IsFirst targets pain context target (rw e at h),
      )
    ]

response_timeframe-none :
    (targets : List PainTimeframe) (pain : PainRating) (context : ResponseContext)
    → response_timeframe targets pain context ≡ none
    → All (λ t. IsFor pain context t → ⊥) targets
unfolding response_timeframe
response_timeframe-none [] pain context h = tt
response_timeframe-none (t ∷ targets) pain context h =
    elim (Bool-cases (same_pain t.pain pain && same_context t.context context)) [
      | inl e ↦ let bad = rw e at h in cc
      | inr e ↦
          (other_target t pain context e, response_timeframe-none targets pain context (rw e at h))
    ]

-- A deadline and the target of the rule that it comes from, or no deadline, the rating N1 and no
-- target of the rule for the rating and the context.
abbrev pub IsResponse :
    SelectedPolicy
    → SelectedRule
    → ℕ
    → PainRating
    → ResponseContext
    → Option PolicyDeadline
    → Type 0
IsResponse policy rule evaluated_at pain context none =
    (pain ≡ PainRating.n1) × All (λ t. IsFor pain context t → ⊥) rule.pain_timeframes
IsResponse policy rule evaluated_at pain context (some deadline) =
    (target : PainTimeframe) × IsFirst rule.pain_timeframes pain context target
    × (deadline.timeframe ≡ target.timeframe)
    × (deadline.rule_id ≡ rule.rule_id)
    × (deadline.force ≡ rule.force)
    × (deadline.start_at ≡ evaluated_at)
    × (deadline_from target.timeframe evaluated_at policy.profile.calendar_zone
        ≡ ok deadline.due_at)

no_target :
    (policy : SelectedPolicy) (rule : SelectedRule) (evaluated_at : ℕ) (pain : PainRating)
    (context : ResponseContext) (found : Option PolicyDeadline)
    → All (λ t. IsFor pain context t → ⊥) rule.pain_timeframes
    → target_deadline policy rule evaluated_at pain none ≡ ok found
    → IsResponse policy rule evaluated_at pain context found
unfolding target_deadline
no_target policy rule evaluated_at pain context found missing h =
    elim (Bool-cases (same_pain pain PainRating.n1)) [
      | inl e ↦
          let same : none ≡ found = ground arith in
          subst (IsResponse policy rule evaluated_at pain context) same
            (same_pain-eq pain PainRating.n1 e, missing)
      | inr e ↦ let bad = rw e at h in ground arith
    ]

under_target :
    (policy : SelectedPolicy) (rule : SelectedRule) (evaluated_at : ℕ) (pain : PainRating)
    (context : ResponseContext) (target : PainTimeframe) (found : Option PolicyDeadline)
    → IsFirst rule.pain_timeframes pain context target
    → target_deadline policy rule evaluated_at pain (some target) ≡ ok found
    → IsResponse policy rule evaluated_at pain context found
unfolding target_deadline deadline_under
under_target policy rule evaluated_at pain context target found p h =
    let (deadline, k, m) =
      >>=-eq-ok (deadline_under policy rule evaluated_at target.timeframe target.description)
        (λ d. ok (some d)) h in
    let same : some deadline ≡ found = ground arith in
    subst (IsResponse policy rule evaluated_at pain context) same
      (target, p, ground arith, ground arith, ground arith, ground arith, ground arith)

target_deadline-IsResponse :
    (policy : SelectedPolicy) (rule : SelectedRule) (evaluated_at : ℕ) (pain : PainRating)
    (context : ResponseContext) (found : Option PolicyDeadline)
    → target_deadline policy rule evaluated_at pain
        (response_timeframe rule.pain_timeframes pain context)
      ≡ ok found
    → IsResponse policy rule evaluated_at pain context found
unfolding target_deadline
target_deadline-IsResponse policy rule evaluated_at pain context found h =
    elim (Option-cases (response_timeframe rule.pain_timeframes pain context)) [
      | inl e ↦
          no_target policy rule evaluated_at pain context found
            (response_timeframe-none rule.pain_timeframes pain context e)
            (ap (target_deadline policy rule evaluated_at pain) (sym e) ∙ h)
      | inr (target, e) ↦
          under_target policy rule evaluated_at pain context target found
            (response_timeframe-IsFirst rule.pain_timeframes pain context target e)
            (ap (target_deadline policy rule evaluated_at pain) (sym e) ∙ h)
    ]

-- A response deadline is that of the first target of the policy's rule VDR-TFR-PVR for the rating
-- and the context of the evaluation, from the instant of the evaluation, under the rule's own
-- force. There is none only for the rating N1, where the rule has no such target. The context is
-- irv_lev or nirv_lev where exploitation is likely, by reachability from the internet, and nlev
-- where it is not.
pub response_deadline_lem :
    (policy : SelectedPolicy) (evaluated_at : ℕ) (pain : PainRating)
    (is_internet_reachable is_likely_exploitable : Bool) (found : Option PolicyDeadline)
    → response_deadline policy evaluated_at pain is_internet_reachable is_likely_exploitable
      ≡ ok found
    → (rule : SelectedRule) × (find_rule policy.rules "VDR-TFR-PVR" ≡ ok rule)
      × (rule.rule_id ≡ "VDR-TFR-PVR")
      × IsResponse policy rule evaluated_at pain
          (context_for is_internet_reachable is_likely_exploitable)
          found
unfolding response_deadline
response_deadline_lem policy evaluated_at pain is_internet_reachable is_likely_exploitable found h =
    let context = response_context is_internet_reachable is_likely_exploitable in
    let (rule, named, k) =
      >>=-eq-ok (find_rule policy.rules "VDR-TFR-PVR")
        (λ rule.
          target_deadline policy rule evaluated_at pain
            (response_timeframe rule.pain_timeframes pain context))
        h in
    (
      rule,
      named,
      find_rule-rule_id policy.rules "VDR-TFR-PVR" {rule = rule} named,
      subst (λ c. IsResponse policy rule evaluated_at pain c found)
          (response_context-context_for is_internet_reachable is_likely_exploitable)
          (target_deadline-IsResponse policy rule evaluated_at pain context found k),
    )
