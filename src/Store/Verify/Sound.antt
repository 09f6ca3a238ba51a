-- ===== src/Store/Verify/Sound.antt =====
-- store/sqlite.py: the rows in which `_column_faults` and `_payload_faults` find nothing.
use comply_roll.Common.{
  ℕ, ◌≤◌, ◌≡◌, ◌↔◌, refl, ap, subst, Bool, true, false, ◌||◌, ◌==◌, not, String, List, [], ◌∷◌,
  ◌++◌, arith, ltb, Bool-cases, inl, inr, Option, none, some, eq_iff, or_false, if◌then◌else◌,
}
use comply_roll.Errors.{
  Result, ok, err, ◌>>◌, >>=-eq-ok, refuse_if, refuse_if-eq-ok, ok_injective, value_error,
  event_payload_limit, event_integrity,
}
use comply_roll.Store.Arguments.{is_untrimmed, size, is_name_pattern, require_name}
use comply_roll.Store.Rows.{StoredEvent}
use comply_roll.Store.Json.{
  Json, Fields, null, boolean, integer, float, text, array, object, foreign, canonical_json_object,
  json_size_problem, validate_json_tree, has_long_integer, dumps,
}
use comply_roll.Store.Read.{check_names, check_json, same_text}
use comply_roll.Store.Verify.{
  fault, is_refused, is_object, fault_if, column_faults, payload_faults, json_code,
}

pub append-eq-nil : {A : Type 0} (xs ys : List A) → (xs ++ ys ≡ []) ↔ ((xs ≡ []) × (ys ≡ []))
append-eq-nil [] ys = (λ h. (refl, h), λ h. h.1)
append-eq-nil (x ∷ xs) ys = (λ h. cc, λ h. let e = h.0 in cc)

pub fault_if-eq-nil :
    (test : Bool) (sequence : Option ℕ) (code : String)
    → (fault_if test sequence code ≡ []) ↔ (test ≡ false)
fault_if-eq-nil true sequence code = (λ h. cc, λ h. cc)
fault_if-eq-nil false sequence code = (λ h. refl, λ h. refl)

pub column_faults-version :
    (row : StoredEvent) → column_faults row ≡ [] → ltb row.stream_version 1 ≡ false
unfolding column_faults
column_faults-version row h =
    let (names, versions) = (append-eq-nil (fault_if (is_refused (check_names row)) _ _) _).0 h in
    let (test, none_left) =
      or_false (ltb row.stream_version 1) (ltb row.event_version 1)
        ((fault_if-eq-nil (ltb row.stream_version 1 || ltb row.event_version 1) _ _).0 versions) in
    test

-- A name of 500 characters at most, as the pattern of names has it, with no space at its ends.
abbrev pub IsName : String → Type 0
IsName name = (is_untrimmed name ≡ false) × (size name ≤ 500) × (is_name_pattern name ≡ true)

require_name-IsName :
    (name field_name : String) → (require_name name field_name ≡ ok tt) ↔ IsName name
unfolding require_name
require_name-IsName name field_name = (
  λ h.
      let (u, trimmed, h1) =
        >>=-eq-ok (refuse_if (is_untrimmed name) (value_error field_name)) _ h in
      let fits = refuse_if-eq-ok (ltb 500 (size name) || not (is_name_pattern name)) _ h1 in
      let (short, patterned) = or_false (ltb 500 (size name)) (not (is_name_pattern name)) fits in
      (
        refuse_if-eq-ok (is_untrimmed name) _ trimmed,
        ground (arith, short),
        ground (arith, patterned),
      ),
  λ h. let short : ltb 500 (size name) ≡ false = ground (arith, h.1) in rw (h.0, short, h.2),
)

-- The names of a row.
abbrev pub HasNames : StoredEvent → Type 0
HasNames row = IsName row.event_id × IsName row.stream_id × IsName row.event_type

check_names-HasNames : (row : StoredEvent) → (check_names row ≡ ok tt) ↔ HasNames row
unfolding check_names
check_names-HasNames row = (
  λ h.
      let (u, two, typed) =
        >>=-eq-ok (require_name row.event_id "event_id" >> require_name row.stream_id "stream_id") _
          h in
      let (v, own, streamed) = >>=-eq-ok (require_name row.event_id "event_id") _ two in
      (
        (require_name-IsName row.event_id "event_id").0 own,
        (require_name-IsName row.stream_id "stream_id").0 streamed,
        (require_name-IsName row.event_type "event_type").0 typed,
      ),
  λ h. rw (
    (require_name-IsName row.event_id "event_id").1 h.0,
    (require_name-IsName row.stream_id "stream_id").1 h.1,
    (require_name-IsName row.event_type "event_type").1 h.2,
  ),
)

is_refused-eq-ok : (m : Result (Unit {0})) → (is_refused m ≡ false) ↔ (m ≡ ok tt)
is_refused-eq-ok (ok u) = (λ h. refl, λ h. refl)
is_refused-eq-ok (err e) = (λ h. cc, λ h. cc)

guard :
    (test : Bool) (code : String) (rest : Option String)
    → (if test then some code else rest) ≡ none
    → (test ≡ false) × (rest ≡ none)
guard true code rest h = cc
guard false code rest h = (refl, h)

flipped : (test : Bool) → not test ≡ false → test ≡ true
flipped true h = refl
flipped false h = cc

no_code :
    (sequence : Option ℕ) (found : Option String)
    → (elim found [ none ↦ [] | some code ↦ fault sequence code ∷ [] ]) ≡ []
    → found ≡ none
no_code sequence none h = refl
no_code sequence (some code) h = cc

column_faults-eq-nil :
    (row : StoredEvent)
    → (column_faults row ≡ []) ↔ (HasNames row × (1 ≤ row.stream_version) × (1 ≤ row.event_version))
unfolding column_faults
column_faults-eq-nil row = (
  λ h.
      let (names, versions) = (append-eq-nil (fault_if (is_refused (check_names row)) _ _) _).0 h in
      let accepted = (fault_if-eq-nil (is_refused (check_names row)) _ _).0 names in
      let (first, second) =
        or_false (ltb row.stream_version 1) (ltb row.event_version 1) (
          (fault_if-eq-nil (ltb row.stream_version 1 || ltb row.event_version 1) _ _).0 versions) in
      (
        (check_names-HasNames row).0 ((is_refused-eq-ok (check_names row)).0 accepted),
        ground (arith, first),
        ground (arith, second),
      ),
  λ h.
      let accepted : is_refused (check_names row) ≡ false =
        (is_refused-eq-ok (check_names row)).1 ((check_names-HasNames row).1 h.0) in
      let first : ltb row.stream_version 1 ≡ false = ground (arith, h.1) in
      let second : ltb row.event_version 1 ≡ false = ground (arith, h.2) in
      rw (accepted, first, second),
)

module _ (sha256_hex : String → String) (loads : String → Result Json) where
  -- The text is the canonical writing of an object, and decodes to that object.
  abbrev pub IsWriting : String → String → Type 0
  IsWriting field_name written =
      (members : Fields) × (loads written ≡ ok (object members))
      × (canonical_json_object (object members) field_name ≡ ok written)

  -- A row as an append writes it.
  abbrev pub IsClean : StoredEvent → Type 0
  IsClean row =
      HasNames row
      × (1 ≤ row.stream_version)
      × (1 ≤ row.event_version)
      × (sha256_hex row.payload_json ≡ row.payload_sha256)
      × IsWriting "payload" row.payload_json
      × IsWriting "metadata" row.metadata_json

  same_text-eq :
      (written : String) (encoded : Result String)
      → (same_text written encoded ≡ true) ↔ (encoded ≡ ok written)
  same_text-eq written (err e) = (λ h. cc, λ h. cc)
  same_text-eq written (ok encoded) = (
    λ h. ap (λ s. ok s) ((eq_iff encoded written).0 h),
    λ h. (eq_iff encoded written).1 (ok_injective h),
  )

  canonical-size :
      (members : Fields) (field_name : String) {written : String}
      → canonical_json_object (object members) field_name ≡ ok written
      → json_size_problem written ≡ false
  unfolding canonical_json_object
  canonical-size members field_name {written} h =
      let (u, valid, h1) =
        >>=-eq-ok
          (validate_json_tree (object members) field_name
            >> refuse_if (has_long_integer (object members)) (value_error field_name))
          _ h in
      let (v, small, h2) =
        >>=-eq-ok
          (refuse_if (json_size_problem (dumps (object members))) (event_payload_limit field_name))
          _ h1 in
      subst (λ t. json_size_problem t ≡ false) (ok_injective h2)
        (refuse_if-eq-ok (json_size_problem (dumps (object members))) _ small)

  check_json-decoded :
      (written field_name : String) (decoded : Json)
      → loads written ≡ ok decoded
      → check_json sha256_hex loads written field_name
        ≡ refuse_if
            (not (same_text written (canonical_json_object decoded field_name)))
            (event_integrity field_name)
  unfolding check_json
  check_json-decoded written field_name decoded read = rw (read, check_json)

  -- A decoded value that is accepted for a text.
  accepted :
      (written field_name : String) (decoded : Result Json)
      → loads written ≡ decoded
      → is_refused decoded ≡ false
      → is_object decoded ≡ true
      → is_refused (check_json sha256_hex loads written field_name) ≡ false
      → IsWriting field_name written
  unfolding check_json
  accepted written field_name (err e) read h k c = cc
  accepted written field_name (ok (object members)) read h k c =
      let test : Bool = same_text written (canonical_json_object (object members) field_name) in
      let passes : not test ≡ false = refuse_if-eq-ok (not test) (event_integrity field_name) (
        (is_refused-eq-ok (refuse_if (not test) (event_integrity field_name))).0
          (rw (check_json-decoded written field_name (object members) read) at c)) in
      (
        members,
        read,
        (same_text-eq written (canonical_json_object (object members) field_name)).0
            (flipped test passes),
      )
  accepted written field_name (ok null) read h k c = cc
  accepted written field_name (ok (boolean b)) read h k c = cc
  accepted written field_name (ok (integer n)) read h k c = cc
  accepted written field_name (ok (float f s)) read h k c = cc
  accepted written field_name (ok (text s)) read h k c = cc
  accepted written field_name (ok (array vs)) read h k c = cc
  accepted written field_name (ok (foreign s)) read h k c = cc

  IsWriting-tests :
      (field_name written : String)
      → IsWriting field_name written
      → (json_size_problem written ≡ false)
        × (is_refused (loads written) ≡ false)
        × (is_object (loads written) ≡ true)
        × (is_refused (check_json sha256_hex loads written field_name) ≡ false)
  unfolding check_json
  IsWriting-tests field_name written (members, read, canonical) =
      let same : same_text written (canonical_json_object (object members) field_name) ≡ true =
        (same_text-eq written (canonical_json_object (object members) field_name)).1 canonical in
      (
        canonical-size members field_name canonical,
        rw read,
        rw read,
        rw (check_json-decoded written field_name (object members) read, same),
      )

  json_code-none :
      (row : StoredEvent)
      → json_code sha256_hex loads row ≡ none
      → IsWriting "payload" row.payload_json × IsWriting "metadata" row.metadata_json
  unfolding json_code
  json_code-none row h =
      let (sized, h1) =
        guard (json_size_problem row.payload_json || json_size_problem row.metadata_json)
          "payload_not_json" _ h in
      let (read, h2) =
        guard (is_refused (loads row.payload_json) || is_refused (loads row.metadata_json))
          "payload_not_json" _ h1 in
      let (typed, h3) =
        guard
          (not (is_object (loads row.payload_json)) || not (is_object (loads row.metadata_json)))
          "payload_not_object" _ h2 in
      let (same, h4) =
        guard
          (is_refused (check_json sha256_hex loads row.payload_json "payload")
            || is_refused (check_json sha256_hex loads row.metadata_json "metadata"))
          "payload_not_json" _ h3 in
      let (r1, r2) =
        or_false (is_refused (loads row.payload_json)) (is_refused (loads row.metadata_json))
          read in
      let (t1, t2) =
        or_false (not (is_object (loads row.payload_json)))
          (not (is_object (loads row.metadata_json))) typed in
      let (s1, s2) =
        or_false (is_refused (check_json sha256_hex loads row.payload_json "payload"))
          (is_refused (check_json sha256_hex loads row.metadata_json "metadata")) same in
      (
        accepted row.payload_json "payload" (loads row.payload_json) refl r1
            (flipped (is_object (loads row.payload_json)) t1) s1,
        accepted row.metadata_json "metadata" (loads row.metadata_json) refl r2
            (flipped (is_object (loads row.metadata_json)) t2) s2,
      )

  payload_faults-eq-nil :
      (row : StoredEvent)
      → (payload_faults sha256_hex loads row ≡ []) ↔ (
          (sha256_hex row.payload_json ≡ row.payload_sha256)
          × IsWriting "payload" row.payload_json
          × IsWriting "metadata" row.metadata_json)
  unfolding payload_faults json_code
  payload_faults-eq-nil row = (
    λ h. elim (Bool-cases (sha256_hex row.payload_json == row.payload_sha256)) [
      | inr e ↦ let bad = rw e at h in cc
      | inl e ↦
          let (payload, metadata) =
            json_code-none row
              (no_code (some row.sequence) (json_code sha256_hex loads row) (rw e at h)) in
          ((eq_iff (sha256_hex row.payload_json) row.payload_sha256).0 e, payload, metadata)
    ],
    λ h.
        let digest = (eq_iff (sha256_hex row.payload_json) row.payload_sha256).1 h.0 in
        let (p1, p2, p3, p4) = IsWriting-tests "payload" row.payload_json h.1 in
        let (m1, m2, m3, m4) = IsWriting-tests "metadata" row.metadata_json h.2 in
        rw (digest, p1, m1, p2, m2, p3, m3, p4, m4),
  )

  pub IsClean-faults :
      (row : StoredEvent)
      → IsClean row ↔ ((column_faults row ≡ []) × (payload_faults sha256_hex loads row ≡ []))
  IsClean-faults row = (
    λ h. (
      (column_faults-eq-nil row).1 (h.0, h.1, h.2),
      (payload_faults-eq-nil row).1 (h.3, h.4, h.5),
    ),
    λ h.
        let (names, version, event_version) = (column_faults-eq-nil row).0 h.0 in
        let (digest, payload, metadata) = (payload_faults-eq-nil row).0 h.1 in
        (names, version, event_version, digest, payload, metadata),
  )
