-- ===== src/Store/Json/Walk.antt =====
-- store/sqlite.py: what the loop of `_validate_json_tree` accepts.
use comply_roll.Common.{
  ℕ, zero, suc, ◌+◌, ◌≤◌, ◌≡◌, refl, ◌↔◌, Bool, true, false, ◌&&◌, String, List, [], ◌∷◌, arith,
  ltb, leb, Bool-cases, inl, inr, ◌⊎◌,
}
use comply_roll.Errors.{ok, err, value_error}
use comply_roll.Store.Json.{
  Json, Values, Fields, null, boolean, integer, float, text, array, object, foreign, no_value,
  value, no_field, field, max_event_json_depth, max_event_json_values, push_values, push_fields,
  visit, validate_stack, validate_json_tree,
}

mutual
  -- How many values there are, with the one at the root.
  pub values_in : Json → ℕ
  values_in null = 1
  values_in (boolean b) = 1
  values_in (integer n) = 1
  values_in (float finite shown) = 1
  values_in (text s) = 1
  values_in (array vs) = suc (values_under vs)
  values_in (object fs) = suc (fields_under fs)
  values_in (foreign type_name) = 1

  pub values_under : Values → ℕ
  values_under no_value = 0
  values_under (value v vs) = values_in v + values_under vs

  pub fields_under : Fields → ℕ
  fields_under no_field = 0
  fields_under (field key v fs) = values_in v + fields_under fs

mutual
  -- Every value under one at this depth is JSON's, and none is nested too deeply.
  pub fits : ℕ → Json → Bool
  fits depth null = leb depth max_event_json_depth
  fits depth (boolean b) = leb depth max_event_json_depth
  fits depth (integer n) = leb depth max_event_json_depth
  fits depth (float finite shown) = leb depth max_event_json_depth && finite
  fits depth (text s) = leb depth max_event_json_depth
  fits depth (array vs) = leb depth max_event_json_depth && values_fit (suc depth) vs
  fits depth (object fs) = leb depth max_event_json_depth && fields_fit (suc depth) fs
  fits depth (foreign type_name) = false

  pub values_fit : ℕ → Values → Bool
  values_fit depth no_value = true
  values_fit depth (value v vs) = fits depth v && values_fit depth vs

  pub fields_fit : ℕ → Fields → Bool
  fields_fit depth no_field = true
  fields_fit depth (field key v fs) = fits depth v && fields_fit depth fs

abbrev pending : List (Json × ℕ) → ℕ
pending [] = 0
pending ((j, depth) ∷ stack) = values_in j + pending stack

abbrev all_fit : List (Json × ℕ) → Bool
all_fit [] = true
all_fit ((j, depth) ∷ stack) = fits depth j && all_fit stack

some_pending : (j : Json) → 1 ≤ values_in j
unfolding values_in
some_pending null = omega arith
some_pending (boolean b) = omega arith
some_pending (integer n) = omega arith
some_pending (float finite shown) = omega arith
some_pending (text s) = omega arith
some_pending (array vs) = omega arith
some_pending (object fs) = omega arith
some_pending (foreign type_name) = omega arith

pushed_values :
    (vs : Values) (depth : ℕ) (stack : List (Json × ℕ))
    → (pending (push_values vs depth stack) ≡ values_under vs + pending stack)
      × (all_fit (push_values vs depth stack) ≡ (values_fit depth vs && all_fit stack))
unfolding push_values values_in fits
pushed_values no_value depth stack = (omega arith, refl)
pushed_values (value v vs) depth stack =
    let (counted, fit) = pushed_values vs depth ((v, depth) ∷ stack) in
    (omega (arith, counted), ground (arith, fit))

pushed_fields :
    (fs : Fields) (depth : ℕ) (stack : List (Json × ℕ))
    → (pending (push_fields fs depth stack) ≡ fields_under fs + pending stack)
      × (all_fit (push_fields fs depth stack) ≡ (fields_fit depth fs && all_fit stack))
unfolding push_fields values_in fits
pushed_fields no_field depth stack = (omega arith, refl)
pushed_fields (field key v fs) depth stack =
    let (counted, fit) = pushed_fields fs depth ((v, depth) ∷ stack) in
    (omega (arith, counted), ground (arith, fit))

-- One round of the loop, on a value that is not too deep.
visited :
    (j : Json) (depth : ℕ) (stack : List (Json × ℕ)) (field_name : String)
    → depth ≤ max_event_json_depth
    → ((pushed : List (Json × ℕ)) × (visit j depth stack field_name ≡ ok pushed)
        × (suc (pending pushed) ≡ values_in j + pending stack)
        × (all_fit pushed ≡ (fits depth j && all_fit stack)))
      ⊎ ((visit j depth stack field_name ≡ err (value_error field_name)) × (fits depth j ≡ false))
unfolding visit values_in fits
visited null depth stack field_name h = inl (stack, refl, omega arith, ground arith)
visited (boolean b) depth stack field_name h = inl (stack, refl, omega arith, ground arith)
visited (integer n) depth stack field_name h = inl (stack, refl, omega arith, ground arith)
visited (float true shown) depth stack field_name h = inl (stack, refl, omega arith, ground arith)
visited (float false shown) depth stack field_name h = inr (refl, ground arith)
visited (text s) depth stack field_name h = inl (stack, refl, omega arith, ground arith)
visited (array vs) depth stack field_name h =
    let (counted, fit) = pushed_values vs (suc depth) stack in
    inl (push_values vs (suc depth) stack, refl, omega (arith, counted), ground (arith, fit))
visited (object fs) depth stack field_name h =
    let (counted, fit) = pushed_fields fs (suc depth) stack in
    inl (push_fields fs (suc depth) stack, refl, omega (arith, counted), ground (arith, fit))
visited (foreign type_name) depth stack field_name h = inr (refl, refl)

too_deep : (j : Json) (depth : ℕ) → ltb max_event_json_depth depth ≡ true → fits depth j ≡ false
unfolding fits
too_deep null depth h = ground arith
too_deep (boolean b) depth h = ground arith
too_deep (integer n) depth h = ground arith
too_deep (float finite shown) depth h = ground arith
too_deep (text s) depth h = ground arith
too_deep (array vs) depth h = ground arith
too_deep (object fs) depth h = ground arith
too_deep (foreign type_name) depth h = refl

walk_lem :
    (left : ℕ) (stack : List (Json × ℕ)) (field_name : String)
    → (validate_stack left stack field_name ≡ ok tt)
      ↔ ((pending stack ≤ left) × (all_fit stack ≡ true))
unfolding validate_stack
walk_lem left [] field_name = (λ h. (omega arith, refl), λ h. refl)
walk_lem zero ((j, depth) ∷ stack) field_name =
    (λ h. cc, λ h. absurd (omega (arith, h.0, some_pending j)))
walk_lem (suc left) ((j, depth) ∷ stack) field_name =
    elim (Bool-cases (ltb max_event_json_depth depth)) [
      | inl e ↦ rw (e, validate_stack) (λ h. cc, λ h. ground (arith, h.1, too_deep j depth e))
      | inr e ↦
          rw (e, validate_stack)
            (elim (visited j depth stack field_name (ground arith)) [
              | inl (pushed, ran, counted, fit) ↦
                  let (there, back) = walk_lem left pushed field_name in
                  rw ran (
                    λ h.
                        let (few, all_ok) = there h in
                        (omega (arith, few, counted), ground (arith, fit, all_ok)),
                    λ h. back (omega (arith, h.0, counted), ground (arith, fit, h.1)),
                  )
              | inr (refused, unfit) ↦ rw refused (λ h. cc, λ h. ground (arith, h.1, unfit))
            ])
    ]

-- The loop over the stack accepts a payload exactly when it holds at most `MAX_EVENT_JSON_VALUES`
-- values, itself included, each of a JSON type, finite where it is a float and nested at most
-- `MAX_EVENT_JSON_DEPTH` deep.
pub validate_json_tree_lem :
    (j : Json) (field_name : String)
    → (validate_json_tree j field_name ≡ ok tt)
      ↔ ((values_in j ≤ max_event_json_values) × (fits 0 j ≡ true))
unfolding validate_json_tree
validate_json_tree_lem j field_name =
    let (there, back) = walk_lem max_event_json_values ((j, 0) ∷ []) field_name in
    (
      λ h. let (few, fit) = there h in (omega (arith, few), ground (arith, fit)),
      λ h. back (omega (arith, h.0), ground (arith, h.1)),
    )
