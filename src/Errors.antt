-- ===== src/Errors.antt =====
-- The exceptions of models.py, policy/rules.py, reports/, store/sqlite.py and history/fold.py as
-- values. A constructor is an exception class; its text names the message, by the field or the
-- rule that the message is about.
use comply_roll.Common.{◌≡◌, refl, ap, Bool, true, false, String}

pub data Error : Type 0 where
  -- builtins
  type_error value_error assertion_error key_error : String → Error
  overflow_error : Error
  -- policy/rules.py: the last two are subclasses of `PolicyDataError`
  policy_data_error policy_rule_not_found unsupported_timeframe : String → Error
  -- models.py: a subclass of `ValueError`
  observation_clock_error : Error
  -- store/sqlite.py
  event_store_error event_conflict event_concurrency projection_concurrency : String → Error
  event_integrity event_payload_limit : String → Error
  unsupported_schema : String → Error
  -- history/fold.py: the second is a subclass of the first
  history_error case_not_found : String → Error
  -- reports/evaluations.py: a subclass of `ValueError`
  report_input_error : String → Error

-- What a call returns, or the exception that it raises.
pub data Result {ℓ} (A : Type ℓ) : Type ℓ where
  err : Error → Result A
  ok : A → Result A

-- `if bad: raise e`
abbrev pub refuse_if : Bool → Error → Result (Unit {0})
refuse_if true e = err e
refuse_if false e = ok tt

-- The statements after a call, which an exception leaves out.
infixl 5 ◌>>=◌
abbrev pub ◌>>=◌ {ℓ κ} :
    {Given : Type ℓ} {Made : Type κ} → Result Given → (Given → Result Made) → Result Made
err raised >>= next = err raised
ok given >>= next = next given

infixl 5 ◌>>◌
abbrev pub ◌>>◌ {κ} : {Made : Type κ} → Result (Unit {0}) → Result Made → Result Made
check >> next = check >>= λ done. next

-- A call and what follows it return only if both do.
pub >>=-eq-ok {ℓ κ} :
    {Given : Type ℓ} {Made : Type κ} (call : Result Given) (next : Given → Result Made)
    {made : Made}
    → (call >>= next) ≡ ok made
    → (given : Given) × (call ≡ ok given) × (next given ≡ ok made)
>>=-eq-ok (err raised) next returns = cc
>>=-eq-ok (ok given) next returns = (given, refl, returns)

pub refuse_if-eq-ok : (b : Bool) (e : Error) {u : Unit {0}} → refuse_if b e ≡ ok u → b ≡ false
refuse_if-eq-ok true e h = cc
refuse_if-eq-ok false e h = refl

pub ok_injective {ℓ} : {A : Type ℓ} {a b : A} → ok a ≡ ok b → a ≡ b
ok_injective {a = a} e = ap (λ r. elim r [ err raised ↦ a | ok made ↦ made ]) e
