-- ===== src/Gaps/Keys.antt =====
-- reports/gaps.py: which closed windows share a context key.
use Prim.Native.Char.{Char, code}
use Prim.Native.String.{◌++◌, ◌∷◌}
use mathlib.Core.Path.{ap₂}
use text.Mathlib.TextLemmas.{append_cancel_left, cons-append, nil-append}
use comply_roll.Common.{
  ℕ, ◌≡◌, ◌≢◌, refl, false, String, Option, none, some, arith, ◌⊎◌, inl, inr, ap, sym, ◌∙◌, nat_eqb,
}
use comply_roll.Coverage.Clock.{subject}
use comply_roll.Coverage.Window.{CoverageWindow}
use comply_roll.Errors.{ok}
use comply_roll.Models.{ResourceRef}
use comply_roll.Gaps.{job_key, resource_key, form_of, job_of, coverage_gap_context_key}
use comply_roll.Inventory.{InformationResource, has_colon}

first_code : String → ℕ
first_code String.[] = 0
first_code (String.◌∷◌ c s) = code c

first : Char → String → Char
first c String.[] = c
first c (String.◌∷◌ d s) = d

others : String → String
others String.[] = ""
others (String.◌∷◌ c s) = s

colon_head : (x : String) → ":" ++ x ≡ String.◌∷◌ ":" x
colon_head x = cons-append ":" "" x ∙ ap (λ s. String.◌∷◌ ":" s) (nil-append x)

nil_split : (x y : String) → "" ++ (":" ++ x) ≡ "" ++ (":" ++ y) → x ≡ y
nil_split x y e = append_cancel_left ":" x y (append_cancel_left "" (":" ++ x) (":" ++ y) e)

-- A text that starts with a colon is not one that starts with another character.
colon_differs :
    (c : Char) (b x y : String)
    → nat_eqb (code c) b':' ≡ false
    → "" ++ (":" ++ x) ≢ String.◌∷◌ c b ++ y
unfolding first_code
colon_differs c b x y k e =
    let f : b':' ≡ code c =
      ap first_code (sym (nil-append (":" ++ x) ∙ colon_head x) ∙ e ∙ cons-append c b y) in
    absurd (ground arith)

colon_split :
    (a b x y : String)
    → has_colon a ≡ false
    → has_colon b ≡ false
    → a ++ (":" ++ x) ≡ b ++ (":" ++ y)
    → (a ≡ b) × (x ≡ y)
unfolding has_colon first others
colon_split String.[] String.[] x y h k e = (refl, nil_split x y e)
colon_split String.[] (String.◌∷◌ c b) x y h k e =
    absurd (colon_differs c b x (":" ++ y) (ground arith) e)
colon_split (String.◌∷◌ c a) String.[] x y h k e =
    absurd (colon_differs c a y (":" ++ x) (ground arith) (sym e))
colon_split (String.◌∷◌ c a) (String.◌∷◌ d b) x y h k e =
    let g : String.◌∷◌ c (a ++ (":" ++ x)) ≡ String.◌∷◌ d (b ++ (":" ++ y)) =
      sym (cons-append c a (":" ++ x)) ∙ e ∙ cons-append d b (":" ++ y) in
    let f : c ≡ d = ap (first c) g in
    let (m, i) = colon_split a b x y (ground arith) (ground arith) (ap others g) in
    (ap₂ (λ u v. u ∷ v) f m, i)

second_code : String → ℕ
unfolding first_code others
second_code s = first_code (others s)

-- The second character of a text and what follows it.
second_code-append :
    (c d : Char) (s t : String) → second_code (String.◌∷◌ c (String.◌∷◌ d s) ++ t) ≡ code d
unfolding second_code
second_code-append c d s t =
    ap second_code (cons-append c (String.◌∷◌ d s) t) ∙ ap first_code (cons-append d s t)

resource_key_ne :
    (rule_id job resource_type resource_id : String)
    → resource_key rule_id resource_type resource_id ≢ job_key rule_id job
unfolding resource_key job_key first_code others
resource_key_ne rule_id job resource_type resource_id e =
    let f : ":resource:" ++ (resource_type ++ (":" ++ resource_id)) ≡ ":job:" ++ job =
      append_cancel_left rule_id (":resource:" ++ (resource_type ++ (":" ++ resource_id)))
        (":job:" ++ job) e in
    let g : ◌≡◌ {A = ℕ} b'r' b'j' =
      sym (second_code-append ":" "r" "esource:" (resource_type ++ (":" ++ resource_id)))
      ∙ ap second_code f
      ∙ second_code-append ":" "j" "ob:" job in
    absurd (omega arith)

resource_key_injective :
    (rule_id a x b y : String)
    → has_colon a ≡ false
    → has_colon b ≡ false
    → resource_key rule_id a x ≡ resource_key rule_id b y
    → (a ≡ b) × (x ≡ y)
unfolding resource_key
resource_key_injective rule_id a x b y h k e = colon_split a b x y h k (
    append_cancel_left ":resource:" (a ++ (":" ++ x)) (b ++ (":" ++ y)) (
      append_cancel_left rule_id (":resource:" ++ (a ++ (":" ++ x)))
        (":resource:" ++ (b ++ (":" ++ y))) e))

job_key_injective : (rule_id j k : String) → job_key rule_id j ≡ job_key rule_id k → j ≡ k
unfolding job_key
job_key_injective rule_id j k e =
    append_cancel_left ":job:" j k (append_cancel_left rule_id (":job:" ++ j) (":job:" ++ k) e)

-- Two windows share the job of their entries, or neither entry has a job and they share the
-- subject.
abbrev pub IsShared : Option String → ResourceRef → Option String → ResourceRef → Type 0
IsShared j r k s =
    ((job : String) × (j ≡ some job) × (k ≡ some job)) ⊎ ((j ≡ none) × (k ≡ none) × (r ≡ s))

form_of_lem :
    (w v : CoverageWindow) (j k : Option String)
    → w.key.rule_id ≡ v.key.rule_id
    → has_colon (subject w.key).resource_type ≡ false
    → has_colon (subject v.key).resource_type ≡ false
    → form_of w j ≡ form_of v k
    → IsShared j (subject w.key) k (subject v.key)
unfolding form_of
form_of_lem w v none none r h i e =
    let r_key =
      λ (id : String). resource_key id (subject w.key).resource_type (subject w.key).resource_id in
    let (f, g) =
      resource_key_injective v.key.rule_id (subject w.key).resource_type (subject w.key).resource_id
        (subject v.key).resource_type (subject v.key).resource_id h i (ap r_key (sym r) ∙ e) in
    inr (refl, refl, ap₂ (λ t u. record { resource_id = u; resource_type = t }) f g)
form_of_lem w v none (some k) r h i e =
    let r_key =
      λ (id : String). resource_key id (subject w.key).resource_type (subject w.key).resource_id in
    absurd (
      resource_key_ne v.key.rule_id k (subject w.key).resource_type (subject w.key).resource_id
        (ap r_key (sym r) ∙ e))
form_of_lem w v (some j) none r h i e = absurd (
    resource_key_ne v.key.rule_id j (subject v.key).resource_type (subject v.key).resource_id
      (sym e ∙ ap (λ (id : String). job_key id j) r))
form_of_lem w v (some j) (some k) r h i e =
    let same =
      job_key_injective v.key.rule_id j k (ap (λ (id : String). job_key id j) (sym r) ∙ e) in
    inl (k, ap some same, refl)

coverage_gap_context_key-form_of :
    (w : CoverageWindow) (e : Option InformationResource) (key : String)
    → coverage_gap_context_key w e ≡ ok key
    → form_of w (job_of e) ≡ key
unfolding coverage_gap_context_key
coverage_gap_context_key-form_of w e key h = ground arith

-- Two closed windows of one rule become one case only if the entries of both name one job, or if
-- neither entry names a job and both windows are of one resource. No resource type has a colon,
-- which the inventory refuses.
pub coverage_gap_context_key_lem :
    (w v : CoverageWindow) (e f : Option InformationResource) (key : String)
    → w.key.rule_id ≡ v.key.rule_id
    → has_colon (subject w.key).resource_type ≡ false
    → has_colon (subject v.key).resource_type ≡ false
    → coverage_gap_context_key w e ≡ ok key
    → coverage_gap_context_key v f ≡ ok key
    → IsShared (job_of e) (subject w.key) (job_of f) (subject v.key)
coverage_gap_context_key_lem w v e f key r h i a b =
    form_of_lem w v (job_of e) (job_of f) r h i (
      coverage_gap_context_key-form_of w e key a ∙ sym (coverage_gap_context_key-form_of v f key b))
