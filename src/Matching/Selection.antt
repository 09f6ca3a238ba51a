-- ===== src/Matching/Selection.antt =====
-- reports/records.py: the entries of a matching.
use comply_roll.Common.{
  ◌≡◌, refl, Bool, true, false, ◌&&◌, String, Option, sym, eq_iff, and_true, or_false, none, some,
  List, [], ◌∷◌, ◌++◌, ◌==◌, eq_refl, All, arith, Bool-cases, Option-cases, inl, inr, if◌then◌else◌,
  is_none, subst, ◌∙◌, ap,
}
use comply_roll.Correlation.{VulnerabilityGroup, kept}
use comply_roll.Evaluations.{EvaluationInput}
use comply_roll.Models.Checks.{reserved_source_type_prefix}
use text.Mathlib.Text.{starts_with}
use comply_roll.Matching.{
  matches, agrees, MatchError, Claims, claimed_by, Matching, refuse, claim, needs_keys, decide,
  match_all, Outcome, outcome, match_evaluations,
}

cons_ne : (errors : List MatchError) (error : MatchError) → errors ++ error ∷ [] ≡ [] → ⊥
cons_ne [] error h = cc
cons_ne (e ∷ errors) error h = cc

-- The state is left as it was found, or has an error more.
decide-errors :
    (entry : EvaluationInput) (candidates : List VulnerabilityGroup) (state : Matching)
    → (decide entry candidates state).errors ≡ []
    → (group : VulnerabilityGroup) × (candidates ≡ group ∷ [])
      × (needs_keys entry group ≡ false)
      × (claimed_by group.tracking_id state.claims ≡ none)
      × (state.errors ≡ [])
      × ((decide entry candidates state).claims ≡ state.claims ++ (group.tracking_id, entry) ∷ [])
unfolding decide claim refuse
decide-errors entry [] state h =
    absurd (cons_ne state.errors (MatchError.evaluation_unmatched entry) h)
decide-errors entry (group ∷ other ∷ rest) state h =
    absurd (cons_ne state.errors (MatchError.evaluation_ambiguous entry (group ∷ other ∷ rest)) h)
decide-errors entry (group ∷ []) state h = elim (Bool-cases (needs_keys entry group)) [
  | inl e ↦
      absurd
        (cons_ne state.errors (MatchError.evaluation_context_key_required entry group) (rw e at h))
  | inr e ↦ elim (Option-cases (claimed_by group.tracking_id state.claims)) [
    | inl f ↦ (group, refl, e, f, rw (e, f) at h, rw (e, f))
    | inr (previous, f) ↦ absurd (
        cons_ne state.errors (MatchError.evaluation_duplicate previous entry group)
          (rw (e, f) at h))
  ]
]

claimed_by-append :
    (id : String) (claims : Claims) (c : String × EvaluationInput)
    → claimed_by id (claims ++ c ∷ []) ≡ (
        if is_none (claimed_by id claims)
        then (if c.0 == id then some c.1 else none)
        else claimed_by id claims)
unfolding claimed_by
claimed_by-append id [] (k, c) = refl
claimed_by-append id ((k, d) ∷ claims) (l, c) = ground (arith, claimed_by-append id claims (l, c))

-- A key that is stated is the group's.
abbrev pub is_or_unstated : Option String → String → Bool
is_or_unstated none value = true
is_or_unstated (some stated) value = stated == value

-- The groups that an entry fits: by its source record, and by its context key and its source type
-- where it states them.
abbrev pub fitting : EvaluationInput → List VulnerabilityGroup → List VulnerabilityGroup
fitting entry [] = []
fitting entry (group ∷ rest) =
    if (entry.match.source_record_id == group.source_record_id)
      && is_or_unstated entry.match.context_key group.context_key
      && is_or_unstated entry.match.source_type group.source_type
    then group ∷ fitting entry rest
    else fitting entry rest

-- All three keys of a group are stated.
abbrev pub StatesAll : EvaluationInput → VulnerabilityGroup → Type 0
StatesAll entry group =
    (entry.match.source_record_id ≡ group.source_record_id)
    × (entry.match.context_key ≡ some group.context_key)
    × (entry.match.source_type ≡ some group.source_type)

-- The entry selects one group only, states the keys that the group asks for, and has its claim.
abbrev pub IsSelected : List VulnerabilityGroup → Claims → EvaluationInput → Type 0
IsSelected groups claims entry =
    (group : VulnerabilityGroup) × (fitting entry groups ≡ group ∷ [])
    × (starts_with group.source_type reserved_source_type_prefix ≡ true → StatesAll entry group)
    × (claimed_by group.tracking_id claims ≡ some entry)

agrees-is_or_unstated :
    (key : Option String) (value : String) → agrees key value ≡ is_or_unstated key value
unfolding agrees
agrees-is_or_unstated none value = refl
agrees-is_or_unstated (some stated) value = refl

kept-fitting :
    (entry : EvaluationInput) (groups : List VulnerabilityGroup)
    → kept (matches entry) groups ≡ fitting entry groups
unfolding kept matches
kept-fitting entry [] = refl
kept-fitting entry (group ∷ rest) = rw (
  agrees-is_or_unstated entry.match.context_key group.context_key,
  agrees-is_or_unstated entry.match.source_type group.source_type,
  kept-fitting entry rest,
)

stated :
    (key : Option String) (value : String)
    → is_none key ≡ false
    → agrees key value ≡ true
    → key ≡ some value
unfolding agrees
stated none value h k = cc
stated (some given) value h k = ap some ((eq_iff given value).0 k)

-- A group that is kept passes its test.
kept-one :
    (test : VulnerabilityGroup → Bool) (groups : List VulnerabilityGroup)
    {group : VulnerabilityGroup} {others : List VulnerabilityGroup}
    → kept test groups ≡ group ∷ others
    → test group ≡ true
unfolding kept
kept-one test [] h = cc
kept-one test (g ∷ rest) {group} {others} h = elim (Bool-cases (test g)) [
  | inl e ↦ let k = rw e at h in let same : g ≡ group = cc in subst (λ x. test x ≡ true) same e
  | inr e ↦ kept-one test rest (rw e at h)
]

states_all :
    (entry : EvaluationInput) (group : VulnerabilityGroup)
    → matches entry group ≡ true
    → needs_keys entry group ≡ false
    → starts_with group.source_type reserved_source_type_prefix ≡ true
    → StatesAll entry group
unfolding matches needs_keys
states_all entry group m needs system =
    let (record_id, keys) =
      and_true
        ((entry.match.source_record_id == group.source_record_id)
          && agrees entry.match.context_key group.context_key)
        (agrees entry.match.source_type group.source_type) m in
    let (own, context) =
      and_true (entry.match.source_record_id == group.source_record_id)
        (agrees entry.match.context_key group.context_key) record_id in
    let (has_context, has_kind) =
      or_false (is_none entry.match.context_key) (is_none entry.match.source_type)
        (rw system at needs) in
    (
      (eq_iff entry.match.source_record_id group.source_record_id).0 own,
      stated entry.match.context_key group.context_key has_context context,
      stated entry.match.source_type group.source_type has_kind keys,
    )

match_all-errors :
    (groups : List VulnerabilityGroup) (entries : List EvaluationInput) (state : Matching)
    → (match_all groups entries state).errors ≡ []
    → All (IsSelected groups (match_all groups entries state).claims) entries
      × ((id : String) (entry : EvaluationInput)
          → claimed_by id state.claims ≡ some entry
          → claimed_by id (match_all groups entries state).claims ≡ some entry)
      × (state.errors ≡ [])
unfolding match_all
match_all-errors groups [] state h = (tt, (λ id entry e. e), h)
match_all-errors groups (entry ∷ rest) state h =
    let next = decide entry (kept (matches entry) groups) state in
    let (all, stays, none_so_far) = match_all-errors groups rest next h in
    let (group, e, keys, free, before, claims) =
      decide-errors entry (kept (matches entry) groups) state none_so_far in
    (
      (
        (
          group,
          sym (kept-fitting entry groups) ∙ e,
          states_all entry group (kept-one (matches entry) groups e) keys,
          stays group.tracking_id entry (
              ap (claimed_by group.tracking_id) claims
              ∙ claimed_by-append group.tracking_id state.claims (group.tracking_id, entry)
              ∙ rw (free, eq_refl group.tracking_id)),
        ),
        all,
      ),
      (λ id held f. stays id held (
          ap (claimed_by id) claims
          ∙ claimed_by-append id state.claims (group.tracking_id, entry)
          ∙ rw f)),
      before,
    )

outcome-matched :
    (found : Claims) (errors : List MatchError) (claims : Claims)
    → outcome found errors ≡ Outcome.matched claims
    → (found ≡ claims) × (errors ≡ [])
unfolding outcome
outcome-matched found [] claims h = (ground arith, refl)
outcome-matched found (e ∷ errors) claims h = ground arith

-- Where evaluations are accepted, every entry fits exactly one of the groups, by its source record
-- and by the context key and the source type where it states them. It states all three keys of
-- that group if it is a system record's, and is the one entry that the group is evaluated by.
pub match_evaluations_lem :
    (groups : List VulnerabilityGroup) (entries : List EvaluationInput) (claims : Claims)
    → match_evaluations groups (some entries) ≡ Outcome.matched claims
    → All (IsSelected groups claims) entries
unfolding match_evaluations outcome
match_evaluations_lem groups entries claims h =
    let start : Matching = record { claims = []; errors = [] } in
    let state = match_all groups entries start in
    let (same, clear) = outcome-matched state.claims state.errors claims h in
    subst (λ c. All (IsSelected groups c) entries) same
      (match_all-errors groups entries start clear).0
