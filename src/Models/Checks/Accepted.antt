-- ===== src/Models/Checks/Accepted.antt =====
-- models.py: observations that pass `__post_init__`.
use Prim.Native.Char.{Char, code}
use text.Mathlib.Text.{starts_with}
use comply_roll.Common.{
  ℕ, zero, suc, ◌+◌, ◌≤◌, ◌≡◌, ◌⊎◌, inl, inr, refl, ap, subst, ◌∙◌, Never, true, false, not, ◌==◌,
  String, Option, none, some, map, arith, eq_iff, nat_eqb, and_true, Bool-cases,
}
use comply_roll.Errors.{
  Error, Result, ok, err, >>=-eq-ok, refuse_if, refuse_if-eq-ok, ok_injective, value_error,
}
use comply_roll.Instant.{Datetime, to_utc}
use comply_roll.Models.{Observation, ObservationOrigin}
use comply_roll.Models.Text.{
  is_blank, require_text, has_duplicates, lower, lower_char, is_hex, all_hex, count_chars,
  require_sha256,
}
use comply_roll.Models.Checks.{
  check_observation, check_origin, check_artifact, check_system, require_utc_clock,
  require_observed, reserved_source_type_prefix,
}

Result-cases :
    {A : Type 0} (m : Result A)
    → ((made : A) × (m ≡ ok made)) ⊎ ((raised : Error) × (m ≡ err raised))
Result-cases (ok made) = inl (made, refl)
Result-cases (err raised) = inr (raised, refl)

-- A character in lower case: the same, or the small letter of one of A to F.
abbrev pub IsLower : Char → Char → Type 0
IsLower given c =
    (c ≡ given) ⊎ ((b'A' ≤ code given) × (code given ≤ b'F') × (code c ≡ code given + 32))

-- A digit from 0 to 9, or a small letter from a to f.
abbrev pub IsHexDigit : Char → Type 0
IsHexDigit c = ((b'0' ≤ code c) × (code c ≤ b'9')) ⊎ ((b'a' ≤ code c) × (code c ≤ b'f'))

-- A text of as many hexadecimal digits, those of another in lower case.
abbrev pub IsDigestOf : ℕ → String → String → Type 0
IsDigestOf zero String.[] String.[] = Unit
IsDigestOf (suc n) (String.◌∷◌ g gs) (String.◌∷◌ c cs) =
    IsLower g c × IsHexDigit c × IsDigestOf n gs cs
IsDigestOf zero String.[] (String.◌∷◌ c cs) = Never
IsDigestOf zero (String.◌∷◌ g gs) cs = Never
IsDigestOf (suc n) String.[] cs = Never
IsDigestOf (suc n) (String.◌∷◌ g gs) String.[] = Never

abbrev pub with_digest : Observation → String → Observation
with_digest o digest = record o { source_artifact_digest = digest }

-- What each origin asks of the observation given, and makes of it.
abbrev pub OriginIsValid : ObservationOrigin → Observation → Observation → Type 0
OriginIsValid ObservationOrigin.artifact o checked =
    (starts_with checked.source_type reserved_source_type_prefix ≡ false)
    × (is_blank checked.source_artifact_name ≡ false)
    × IsDigestOf 64 o.source_artifact_digest checked.source_artifact_digest
    × (checked ≡ with_digest o checked.source_artifact_digest)
OriginIsValid ObservationOrigin.system o checked =
    (checked.source_artifact_name ≡ "")
    × (checked.source_artifact_digest ≡ "")
    × (is_blank checked.context_key ≡ false)
    × ((clock : Datetime) × (instant : ℕ) × (checked.observed_at ≡ some clock)
        × (to_utc clock ≡ ok instant))
    × (checked ≡ o)

-- What the checks of `o` leave in `checked`.
pub record IsAccepted (o checked : Observation) : Type 0 where
  pub origin : OriginIsValid o.origin o checked
  pub named : is_blank checked.observation_id ≡ false
  pub typed : is_blank checked.source_type ≡ false
  pub recorded : is_blank checked.source_record_id ≡ false
  pub identifiers : has_duplicates checked.source_identifiers ≡ false
  pub metadata : has_duplicates (map (λ p. p.0) checked.source_metadata) ≡ false

small :
    (c d : Char) (n : ℕ)
    → nat_eqb (code c) n ≡ true
    → b'A' ≤ n
    → n ≤ b'F'
    → code d ≡ n + 32
    → IsLower c d
small c d n e low high made =
    let same : code c ≡ n = ground (arith, e) in
    inr (omega (arith, same, low), omega (arith, same, high), omega (arith, same, made))

lower_char-IsLower : (c : Char) → IsLower c (lower_char c)
unfolding lower_char
lower_char-IsLower c = elim (Bool-cases (nat_eqb (code c) b'A')) [
  | inl e ↦ rw e (small c "a" b'A' e (omega arith) (omega arith) refl)
  | inr e1 ↦ elim (Bool-cases (nat_eqb (code c) b'B')) [
    | inl e ↦ rw (e1, e) (small c "b" b'B' e (omega arith) (omega arith) refl)
    | inr e2 ↦ elim (Bool-cases (nat_eqb (code c) b'C')) [
      | inl e ↦ rw (e1, e2, e) (small c "c" b'C' e (omega arith) (omega arith) refl)
      | inr e3 ↦ elim (Bool-cases (nat_eqb (code c) b'D')) [
        | inl e ↦ rw (e1, e2, e3, e) (small c "d" b'D' e (omega arith) (omega arith) refl)
        | inr e4 ↦ elim (Bool-cases (nat_eqb (code c) b'E')) [
          | inl e ↦ rw (e1, e2, e3, e4, e) (small c "e" b'E' e (omega arith) (omega arith) refl)
          | inr e5 ↦ elim (Bool-cases (nat_eqb (code c) b'F')) [
            | inl e ↦
                rw (e1, e2, e3, e4, e5, e) (small c "f" b'F' e (omega arith) (omega arith) refl)
            | inr e6 ↦ rw (e1, e2, e3, e4, e5, e6) (inl refl)
          ]
        ]
      ]
    ]
  ]
]

is_hex-IsHexDigit : (c : Char) → is_hex (code c) ≡ true → IsHexDigit c
unfolding is_hex
is_hex-IsHexDigit c h = ground (arith, h)

lower-IsDigestOf :
    (n : ℕ) (s : String)
    → count_chars (lower s) ≡ n
    → all_hex (lower s) ≡ true
    → IsDigestOf n s (lower s)
unfolding lower all_hex count_chars
lower-IsDigestOf zero String.[] h k = tt
lower-IsDigestOf zero (String.◌∷◌ c s) h k = absurd (omega (arith, h))
lower-IsDigestOf (suc n) String.[] h k = absurd (omega (arith, h))
lower-IsDigestOf (suc n) (String.◌∷◌ c s) h k =
    let (own, rest) = and_true (is_hex (code (lower_char c))) (all_hex (lower s)) k in
    (
      lower_char-IsLower c,
      is_hex-IsHexDigit (lower_char c) own,
      lower-IsDigestOf n s (omega (arith, h)) rest,
    )

require_sha256-IsDigestOf :
    (given field_name : String) {digest : String}
    → require_sha256 given field_name ≡ ok digest
    → IsDigestOf 64 given digest
unfolding require_sha256
require_sha256-IsDigestOf given field_name {digest} h =
    elim (Bool-cases (nat_eqb (count_chars (lower given)) 64)) [
      | inr e ↦ let bad = rw e at h in cc
      | inl e ↦ elim (Bool-cases (all_hex (lower given))) [
        | inr f ↦ let bad = rw (e, f) at h in cc
        | inl f ↦
            let same : lower given ≡ digest = ok_injective (rw (e, f) at h) in
            subst (IsDigestOf 64 given) same (lower-IsDigestOf 64 given (ground (arith, e)) f)
      ]
    ]

check_artifact_lem :
    (o : Observation) {checked : Observation}
    → check_artifact o ≡ ok checked
    → OriginIsValid ObservationOrigin.artifact o checked
unfolding check_artifact require_text
check_artifact_lem o {checked} h =
    let (u, typed, h1) =
      >>=-eq-ok
        (refuse_if (starts_with o.source_type reserved_source_type_prefix)
          (value_error "source_type"))
        _ h in
    let (v, named, h2) =
      >>=-eq-ok (require_text o.source_artifact_name "source_artifact_name") _ h1 in
    let (digest, read, h3) =
      >>=-eq-ok (require_sha256 o.source_artifact_digest "source_artifact_digest") _ h2 in
    let same : with_digest o digest ≡ checked = ok_injective h3 in
    subst (OriginIsValid ObservationOrigin.artifact o) same (
      refuse_if-eq-ok (starts_with o.source_type reserved_source_type_prefix) _ typed,
      refuse_if-eq-ok (is_blank o.source_artifact_name) _ named,
      require_sha256-IsDigestOf o.source_artifact_digest "source_artifact_digest" read,
      refl,
    )

require_utc_clock-eq-ok :
    (observed : Option Datetime) {u : Unit {0}}
    → require_utc_clock observed ≡ ok u
    → (clock : Datetime) × (instant : ℕ) × (observed ≡ some clock) × (to_utc clock ≡ ok instant)
unfolding require_utc_clock
require_utc_clock-eq-ok none h = cc
require_utc_clock-eq-ok (some clock) h = elim (Result-cases (to_utc clock)) [
  | inl (instant, e) ↦ (clock, instant, refl, e)
  | inr (raised, e) ↦ let bad = rw (e, require_utc_clock) at h in cc
]

check_system_lem :
    (o : Observation) {checked : Observation}
    → check_system o ≡ ok checked
    → OriginIsValid ObservationOrigin.system o checked
unfolding check_system require_text
check_system_lem o {checked} h =
    let (u, nameless, h1) =
      >>=-eq-ok
        (refuse_if (not (o.source_artifact_name == "")) (value_error "source_artifact_name")) _ h in
    let (v, no_digest, h2) =
      >>=-eq-ok
        (refuse_if (not (o.source_artifact_digest == "")) (value_error "source_artifact_digest")) _
        h1 in
    let (w, observed, h3) = >>=-eq-ok (require_observed o.observed_at) _ h2 in
    let (x, keyed, h4) = >>=-eq-ok (require_text o.context_key "context_key") _ h3 in
    let (y, read, h5) = >>=-eq-ok (require_utc_clock o.observed_at) _ h4 in
    let same : o ≡ checked = ok_injective h5 in
    subst (OriginIsValid ObservationOrigin.system o) same (
      is_empty o.source_artifact_name
          (refuse_if-eq-ok (not (o.source_artifact_name == "")) _ nameless),
      is_empty o.source_artifact_digest
          (refuse_if-eq-ok (not (o.source_artifact_digest == "")) _ no_digest),
      refuse_if-eq-ok (is_blank o.context_key) _ keyed,
      require_utc_clock-eq-ok o.observed_at read,
      refl,
    )
  where
    is_empty : (s : String) → not (s == "") ≡ false → s ≡ ""
    is_empty s e = ground (arith, e, eq_iff s "")

check_origin_lem :
    (k : ObservationOrigin) (o : Observation) {checked : Observation}
    → check_origin k o ≡ ok checked
    → OriginIsValid k o checked
unfolding check_origin
check_origin_lem ObservationOrigin.artifact o h = check_artifact_lem o h
check_origin_lem ObservationOrigin.system o h = check_system_lem o h

text_of :
    (value field_name : String) {u : Unit {0}}
    → require_text value field_name ≡ ok u
    → is_blank value ≡ false
unfolding require_text
text_of value field_name h = refuse_if-eq-ok (is_blank value) _ h

-- The texts that no origin changes.
same_text_fields :
    (k : ObservationOrigin) (o checked : Observation)
    → OriginIsValid k o checked
    → (checked.observation_id ≡ o.observation_id)
      × (checked.source_type ≡ o.source_type)
      × (checked.source_record_id ≡ o.source_record_id)
same_text_fields ObservationOrigin.artifact o checked h = (
  ap (λ (x : Observation). x.observation_id) h.3,
  ap (λ (x : Observation). x.source_type) h.3,
  ap (λ (x : Observation). x.source_record_id) h.3,
)
same_text_fields ObservationOrigin.system o checked h = (
  ap (λ (x : Observation). x.observation_id) h.4,
  ap (λ (x : Observation). x.source_type) h.4,
  ap (λ (x : Observation). x.source_record_id) h.4,
)

-- An accepted artifact observation is the one given with its digest in lower case, 64 hexadecimal
-- digits; it has an artifact name and no reserved source type. An accepted system observation is
-- exactly the one given; it has no artifact name, no artifact digest, a context key, and an
-- observation time with an instant in UTC. In both, the identifier, the source type and the source
-- record are not blank, and the source identifiers and the keys of the metadata are distinct.
pub check_observation-IsAccepted :
    (o : Observation) {checked : Observation}
    → check_observation o ≡ ok checked
    → IsAccepted o checked
unfolding check_observation
check_observation-IsAccepted o {checked} h =
    let (a, named, h1) = >>=-eq-ok (require_text o.observation_id "observation_id") _ h in
    let (b, typed, h2) = >>=-eq-ok (require_text o.source_type "source_type") _ h1 in
    let (c, tooled, h3) = >>=-eq-ok (require_text o.source_tool "source_tool") _ h2 in
    let (d, parsed, h4) = >>=-eq-ok (require_text o.parser_name "parser_name") _ h3 in
    let (e, versioned, h5) = >>=-eq-ok (require_text o.parser_version "parser_version") _ h4 in
    let (f, recorded, h6) = >>=-eq-ok (require_text o.source_record_id "source_record_id") _ h5 in
    let (made, origin, h7) = >>=-eq-ok (check_origin o.origin o) _ h6 in
    let (g, identifiers, h8) =
      >>=-eq-ok
        (refuse_if (has_duplicates made.source_identifiers) (value_error "source_identifiers")) _
        h7 in
    let (i, metadata, h9) =
      >>=-eq-ok
        (refuse_if (has_duplicates (map (λ p. p.0) made.source_metadata))
          (value_error "source_metadata"))
        _ h8 in
    let valid = check_origin_lem o.origin o {checked = made} origin in
    let kept = same_text_fields o.origin o made valid in
    subst (IsAccepted o) (ok_injective h9) (record {
      origin = valid;
      named = ap is_blank kept.0 ∙ text_of o.observation_id "observation_id" named;
      typed = ap is_blank kept.1 ∙ text_of o.source_type "source_type" typed;
      recorded = ap is_blank kept.2 ∙ text_of o.source_record_id "source_record_id" recorded;
      identifiers = refuse_if-eq-ok (has_duplicates made.source_identifiers) _ identifiers;
      metadata = refuse_if-eq-ok (has_duplicates (map (λ p. p.0) made.source_metadata)) _ metadata;
    })
