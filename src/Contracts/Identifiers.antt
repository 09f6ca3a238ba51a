-- ===== src/Contracts/Identifiers.antt =====
-- events/contracts.py: what the identifiers of streams say.
use Prim.Native.String.{◌++◌}
use text.Mathlib.TextLemmas.{append_assoc}
use mathlib.Core.List.{[] as end, ◌∷◌ as more}
use comply_roll.Common.{◌≡◌, refl, ap, sym, subst, ◌∙◌, Bool, true, false, String, List, some, leb}
use comply_roll.Errors.{ok, >>=-eq-ok}
use comply_roll.Contracts.{
  case_stream_prefix, coverage_stream_prefix, without_prefix, split_slash, is_hex_of, is_component,
  is_tracking_id, checked, require_digest, require_component, require_tracking_id,
  require_stream_id, text_length, max_stream_id_length, reading_stream_id,
  reading_stream_components, coverage_stream_id, coverage_stream_fingerprint, case_stream_id,
  tracking_id_from_stream,
}
use comply_roll.Contracts.Split.{
  no_slash, without_prefix-append, split_slash-append, split_slash-one, is_hex_of-no_slash,
  is_component-no_slash,
}

checked-eq-ok :
    (test : Bool) (value field_name : String) {made : String}
    → checked test value field_name ≡ ok made
    → (test ≡ true) × (value ≡ made)
checked-eq-ok true value field_name h = (refl, cc)
checked-eq-ok false value field_name h = cc

require_stream_id-same :
    (text : String) {stream_id : String} → require_stream_id text ≡ ok stream_id → text ≡ stream_id
unfolding require_stream_id
require_stream_id-same text h =
    (checked-eq-ok (leb (text_length text) max_stream_id_length) text "stream_id" h).1

-- What follows the start of an identifier.
pub after_prefix :
    (prefix rest : String) → without_prefix (prefix ++ "/") (prefix ++ ("/" ++ rest)) ≡ some rest
after_prefix prefix rest =
    ap (without_prefix (prefix ++ "/")) (sym (append_assoc prefix "/" rest))
    ∙ without_prefix-append (prefix ++ "/") rest

reading_parts :
    (a b c : String)
    → no_slash a ≡ true
    → no_slash b ≡ true
    → no_slash c ≡ true
    → split_slash (a ++ ("/" ++ (b ++ ("/" ++ c)))) ≡ (a, more b (more c end))
reading_parts a b c ha hb hc =
    split_slash-append a (b ++ ("/" ++ c)) ha
    ∙ ap (λ (p : String × List String). (a, more p.0 p.1))
        (split_slash-append b c hb
          ∙ ap (λ (p : String × List String). (b, more p.0 p.1)) (split_slash-one c hc))

abbrev pub reading_text : String → String → String → String → String
reading_text prefix a b c = prefix ++ ("/" ++ (a ++ ("/" ++ (b ++ ("/" ++ c)))))

-- The checks that an identifier of a reading has passed.
pub reading_stream_id-eq-ok :
    (prefix sha256 parser_name parser_version : String) {stream_id : String}
    → reading_stream_id prefix sha256 parser_name parser_version ≡ ok stream_id
    → (is_hex_of 64 sha256 ≡ true)
      × (is_component parser_name ≡ true)
      × (is_component parser_version ≡ true)
      × (require_stream_id (reading_text prefix sha256 parser_name parser_version) ≡ ok stream_id)
      × (reading_text prefix sha256 parser_name parser_version ≡ stream_id)
unfolding reading_stream_id require_digest require_component
reading_stream_id-eq-ok prefix sha256 parser_name parser_version {stream_id} h =
    let (digest, d, h1) = >>=-eq-ok (require_digest sha256 "sha256") _ h in
    let (name, n, h2) = >>=-eq-ok (require_component parser_name "parser_name") _ h1 in
    let (version, v, h3) = >>=-eq-ok (require_component parser_version "parser_version") _ h2 in
    let (hex, same_digest) = checked-eq-ok (is_hex_of 64 sha256) sha256 "sha256" d in
    let (named, same_name) = checked-eq-ok (is_component parser_name) parser_name "parser_name" n in
    let (versioned, same_version) =
      checked-eq-ok (is_component parser_version) parser_version "parser_version" v in
    let short : require_stream_id (reading_text prefix sha256 parser_name parser_version)
        ≡ ok stream_id =
      subst
        (λ a. require_stream_id (reading_text prefix a parser_name parser_version) ≡ ok stream_id)
        (sym same_digest)
        (subst (λ b. require_stream_id (reading_text prefix digest b parser_version) ≡ ok stream_id)
          (sym same_name)
          (subst (λ c. require_stream_id (reading_text prefix digest name c) ≡ ok stream_id)
            (sym same_version) h3)) in
    (hex, named, versioned, short, require_stream_id-same _ short)

-- An identifier that was made of three components is taken apart into them.
pub reading_stream_components-reading_stream_id :
    (prefix sha256 parser_name parser_version : String) {stream_id : String}
    → reading_stream_id prefix sha256 parser_name parser_version ≡ ok stream_id
    → reading_stream_components prefix stream_id ≡ ok (sha256, (parser_name, parser_version))
unfolding reading_stream_components require_digest require_component
reading_stream_components-reading_stream_id prefix sha256 parser_name parser_version {stream_id} h =
    let (hex, named, versioned, short, same) =
      reading_stream_id-eq-ok prefix sha256 parser_name parser_version h in
    let parts =
      reading_parts sha256 parser_name parser_version (is_hex_of-no_slash 64 sha256 hex)
        (is_component-no_slash parser_name named)
        (is_component-no_slash parser_version versioned) in
    subst (λ id. reading_stream_components prefix id ≡ ok (sha256, (parser_name, parser_version)))
      same
      (rw (
        after_prefix prefix (sha256 ++ ("/" ++ (parser_name ++ ("/" ++ parser_version)))),
        short,
        parts,
        hex,
        named,
        versioned,
      ))

pub coverage_stream_fingerprint-coverage_stream_id :
    (fingerprint : String) {stream_id : String}
    → coverage_stream_id fingerprint ≡ ok stream_id
    → (coverage_stream_prefix ++ ("/" ++ fingerprint) ≡ stream_id)
      × (coverage_stream_fingerprint stream_id ≡ ok fingerprint)
unfolding coverage_stream_id coverage_stream_fingerprint require_digest
coverage_stream_fingerprint-coverage_stream_id fingerprint {stream_id} h =
    let (digest, d, short) = >>=-eq-ok (require_digest fingerprint "fingerprint") _ h in
    let (hex, same_digest) = checked-eq-ok (is_hex_of 64 fingerprint) fingerprint "fingerprint" d in
    let fits : require_stream_id (coverage_stream_prefix ++ ("/" ++ fingerprint)) ≡ ok stream_id =
      subst (λ a. require_stream_id (coverage_stream_prefix ++ ("/" ++ a)) ≡ ok stream_id)
        (sym same_digest) short in
    let same = require_stream_id-same (coverage_stream_prefix ++ ("/" ++ fingerprint)) fits in
    (
      same,
      subst (λ id. coverage_stream_fingerprint id ≡ ok fingerprint) same
          (rw (after_prefix coverage_stream_prefix fingerprint, fits, hex)),
    )

pub tracking_id_from_stream-case_stream_id :
    (tracking_id : String) {stream_id : String}
    → case_stream_id tracking_id ≡ ok stream_id
    → (case_stream_prefix ++ ("/" ++ tracking_id) ≡ stream_id)
      × (tracking_id_from_stream stream_id ≡ ok tracking_id)
unfolding case_stream_id tracking_id_from_stream require_tracking_id
tracking_id_from_stream-case_stream_id tracking_id {stream_id} h =
    let (given, d, short) = >>=-eq-ok (require_tracking_id tracking_id) _ h in
    let (named, same_id) = checked-eq-ok (is_tracking_id tracking_id) tracking_id "tracking_id" d in
    let fits : require_stream_id (case_stream_prefix ++ ("/" ++ tracking_id)) ≡ ok stream_id =
      subst (λ a. require_stream_id (case_stream_prefix ++ ("/" ++ a)) ≡ ok stream_id) (sym same_id)
        short in
    let same = require_stream_id-same (case_stream_prefix ++ ("/" ++ tracking_id)) fits in
    (
      same,
      subst (λ id. tracking_id_from_stream id ≡ ok tracking_id) same
          (rw (after_prefix case_stream_prefix tracking_id, named)),
    )
