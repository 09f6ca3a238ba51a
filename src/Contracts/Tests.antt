-- ===== src/Contracts/Tests.antt =====
-- events/contracts.py, on small inputs.
use comply_roll.Common.{◌≡◌, refl, true, false, String}
use comply_roll.Errors.{ok, err, value_error}
use comply_roll.Contracts.{artifact_stream_id, event_belongs_on_stream}
use comply_roll.Contracts.Kinds.{
  Aggregate, artifact, identify, Says, identify-Says, identify_injective,
}

abbrev digest : String
digest = "00000000000000000000000000000000000000000000000000000000000000ab"

abbrev scan : Aggregate
scan = artifact digest "cklb" "1.0"

abbrev scan_id : String
scan_id = "artifact/00000000000000000000000000000000000000000000000000000000000000ab/cklb/1.0"

scan_named : identify scan ≡ ok scan_id
unfolding artifact_stream_id
scan_named = refl

identify-Says_example : Says scan scan_id
identify-Says_example = identify-Says scan scan_named

identify_injective_example : scan ≡ artifact digest "cklb" "1.0"
identify_injective_example = identify_injective scan scan scan_named scan_named

slash_refused : artifact_stream_id digest "c/klb" "1.0" ≡ err (value_error "parser_name")
unfolding artifact_stream_id
slash_refused = refl

wrong_stream : event_belongs_on_stream "case.created" scan_id ≡ false
unfolding event_belongs_on_stream
wrong_stream = refl

shared_type : event_belongs_on_stream "observation.recorded" scan_id ≡ true
unfolding event_belongs_on_stream
shared_type = refl
