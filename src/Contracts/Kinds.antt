-- ===== src/Contracts/Kinds.antt =====
-- events/contracts.py: the kinds of streams.
use Prim.Native.String.{◌++◌}
use comply_roll.Common.{
  ◌==◌, ◌≡◌, refl, ap, sym, ◌∙◌, true, false, String, Option, none, some, is_some, if◌then◌else◌,
}
use comply_roll.Errors.{Result, ok, err}
use comply_roll.Contracts.{
  artifact_stream_prefix, case_stream_prefix, failure_stream_prefix, is_stream_of, stream_kind,
  artifact_stream_id, artifact_stream_components, failure_stream_id, failure_stream_components,
  coverage_stream_id, coverage_stream_fingerprint, case_stream_id, tracking_id_from_stream,
}
use comply_roll.Contracts.Split.{without_prefix-other, without_prefix-same}
use comply_roll.Contracts.Identifiers.{
  after_prefix, reading_stream_id-eq-ok, reading_stream_components-reading_stream_id,
  coverage_stream_fingerprint-coverage_stream_id, tracking_id_from_stream-case_stream_id,
}

is_stream_of-own : (prefix rest : String) → is_stream_of prefix (prefix ++ ("/" ++ rest)) ≡ true
unfolding is_stream_of
is_stream_of-own prefix rest = ap is_some (after_prefix prefix rest)

case_is_no_artifact : (rest : String) → is_stream_of artifact_stream_prefix ("case" ++ rest) ≡ false
unfolding is_stream_of
case_is_no_artifact rest = ap is_some (without_prefix-other "a" "c" "rtifact/" "ase" rest refl)

kind-artifact : (rest : String) → stream_kind ("artifact" ++ ("/" ++ rest)) ≡ some "artifact"
unfolding stream_kind
kind-artifact rest = rw (is_stream_of-own "artifact" rest)

kind-case : (rest : String) → stream_kind ("case" ++ ("/" ++ rest)) ≡ some "case"
unfolding stream_kind
kind-case rest = rw (case_is_no_artifact ("/" ++ rest), is_stream_of-own "case" rest)

failure_is_no_artifact :
    (rest : String) → is_stream_of artifact_stream_prefix ("failure" ++ rest) ≡ false
unfolding is_stream_of
failure_is_no_artifact rest =
    ap is_some (without_prefix-other "a" "f" "rtifact/" "ailure" rest refl)

failure_is_no_case : (rest : String) → is_stream_of case_stream_prefix ("failure" ++ rest) ≡ false
unfolding is_stream_of
failure_is_no_case rest = ap is_some (without_prefix-other "c" "f" "ase/" "ailure" rest refl)

kind-failure : (rest : String) → stream_kind ("failure" ++ ("/" ++ rest)) ≡ some "failure"
unfolding stream_kind
kind-failure rest = rw (
  failure_is_no_artifact ("/" ++ rest),
  failure_is_no_case ("/" ++ rest),
  is_stream_of-own "failure" rest,
)

coverage_is_no_artifact :
    (rest : String) → is_stream_of artifact_stream_prefix ("coverage" ++ rest) ≡ false
unfolding is_stream_of
coverage_is_no_artifact rest =
    ap is_some (without_prefix-other "a" "c" "rtifact/" "overage" rest refl)

coverage_is_no_case : (rest : String) → is_stream_of case_stream_prefix ("coverage" ++ rest) ≡ false
unfolding is_stream_of
coverage_is_no_case rest = ap is_some (
    without_prefix-same "c" "ase/" "overage" rest
    ∙ without_prefix-other "a" "o" "se/" "verage" rest refl)

coverage_is_no_failure :
    (rest : String) → is_stream_of failure_stream_prefix ("coverage" ++ rest) ≡ false
unfolding is_stream_of
coverage_is_no_failure rest =
    ap is_some (without_prefix-other "f" "c" "ailure/" "overage" rest refl)

kind-coverage : (rest : String) → stream_kind ("coverage" ++ ("/" ++ rest)) ≡ some "coverage"
unfolding stream_kind
kind-coverage rest = rw (
  coverage_is_no_artifact ("/" ++ rest),
  coverage_is_no_case ("/" ++ rest),
  coverage_is_no_failure ("/" ++ rest),
  is_stream_of-own "coverage" rest,
)

-- What a stream is about.
pub data Aggregate : Type 0 where
  artifact : String → String → String → Aggregate
  failure : String → String → String → Aggregate
  case_of : String → Aggregate
  coverage : String → Aggregate

abbrev pub identify : Aggregate → Result String
identify (artifact sha256 parser_name parser_version) =
    artifact_stream_id sha256 parser_name parser_version
identify (failure sha256 parser_name parser_version) =
    failure_stream_id sha256 parser_name parser_version
identify (case_of tracking_id) = case_stream_id tracking_id
identify (coverage fingerprint) = coverage_stream_id fingerprint

-- What the identifier says when it is read back: its kind, and the parts of it.
abbrev pub Says : Aggregate → String → Type 0
Says (artifact sha256 parser_name parser_version) stream_id =
    (stream_kind stream_id ≡ some "artifact")
    × (artifact_stream_components stream_id ≡ ok (sha256, (parser_name, parser_version)))
Says (failure sha256 parser_name parser_version) stream_id =
    (stream_kind stream_id ≡ some "failure")
    × (failure_stream_components stream_id ≡ ok (sha256, (parser_name, parser_version)))
Says (case_of tracking_id) stream_id =
    (stream_kind stream_id ≡ some "case") × (tracking_id_from_stream stream_id ≡ ok tracking_id)
Says (coverage fingerprint) stream_id =
    (stream_kind stream_id ≡ some "coverage")
    × (coverage_stream_fingerprint stream_id ≡ ok fingerprint)

-- The identifier that is made for an artifact, a failure, a case or a coverage gap names that kind
-- of stream and no other, and the function that takes it apart returns exactly what it was made
-- of.
pub identify-Says :
    (aggregate : Aggregate) {stream_id : String}
    → identify aggregate ≡ ok stream_id
    → Says aggregate stream_id
unfolding artifact_stream_id artifact_stream_components failure_stream_id failure_stream_components
identify-Says (artifact a b c) h =
    let (hex, named, versioned, short, same) = reading_stream_id-eq-ok "artifact" a b c h in
    (
      ap stream_kind (sym same) ∙ kind-artifact (a ++ ("/" ++ (b ++ ("/" ++ c)))),
      reading_stream_components-reading_stream_id "artifact" a b c h,
    )
identify-Says (failure a b c) h =
    let (hex, named, versioned, short, same) = reading_stream_id-eq-ok "failure" a b c h in
    (
      ap stream_kind (sym same) ∙ kind-failure (a ++ ("/" ++ (b ++ ("/" ++ c)))),
      reading_stream_components-reading_stream_id "failure" a b c h,
    )
identify-Says (case_of t) h =
    let (same, read) = tracking_id_from_stream-case_stream_id t h in
    (ap stream_kind (sym same) ∙ kind-case t, read)
identify-Says (coverage f) h =
    let (same, read) = coverage_stream_fingerprint-coverage_stream_id f h in
    (ap stream_kind (sym same) ∙ kind-coverage f, read)

-- A value under a result, kept where there is one.
kept {ℓ κ} : {A : Type ℓ} {B : Type κ} → (A → B) → Result A → Option B
kept make (err raised) = none
kept make (ok made) = some (make made)

-- The aggregate that an identifier of a kind is read as.
read_back : Option String → String → Option Aggregate
unfolding kept
read_back none stream_id = none
read_back (some kind) stream_id =
    if kind == "artifact"
    then kept (λ (p : String × (String × String)). artifact p.0 p.1.0 p.1.1)
        (artifact_stream_components stream_id)
    else if kind == "failure"
    then kept (λ (p : String × (String × String)). failure p.0 p.1.0 p.1.1)
        (failure_stream_components stream_id)
    else if kind == "case"
    then kept case_of (tracking_id_from_stream stream_id)
    else kept coverage (coverage_stream_fingerprint stream_id)

read_back-Says :
    (aggregate : Aggregate) (stream_id : String)
    → Says aggregate stream_id
    → read_back (stream_kind stream_id) stream_id ≡ some aggregate
unfolding read_back
read_back-Says (artifact a b c) stream_id (kind, parts) = rw (kind, parts)
read_back-Says (failure a b c) stream_id (kind, parts) = rw (kind, parts)
read_back-Says (case_of t) stream_id (kind, parts) = rw (kind, parts)
read_back-Says (coverage f) stream_id (kind, parts) = rw (kind, parts)

some_injective : {x y : Aggregate} → some x ≡ some y → x ≡ y
some_injective h = cc

-- Two aggregates that are given one stream identifier are the same.
pub identify_injective :
    (x y : Aggregate) {stream_id : String}
    → identify x ≡ ok stream_id
    → identify y ≡ ok stream_id
    → x ≡ y
identify_injective x y {stream_id} h k = some_injective (
    sym (read_back-Says x stream_id (identify-Says x h))
    ∙ read_back-Says y stream_id (identify-Says y k))
