-- ===== src/Descriptor/FeatureSetFieldPresence.antt =====
-- The enum `FeatureSet_FieldPresence` of web/src/generated/google/protobuf/descriptor.ts and its JSON.
pub mod Json
use sample_grpc_service.Prelude.{String, str_eq, true, false, if◌then◌else◌}
use sample_grpc_service.Js.{Js, number, str}
use sample_grpc_service.Proto.Json.{JsonScalar, js_enum}

pub data FeatureSetFieldPresence : Type 0 where
  field_presence_unknown explicit implicit legacy_required unrecognized : FeatureSetFieldPresence

-- The number of a value, as its text.
unfoldable pub enum_value : FeatureSetFieldPresence → String
enum_value field_presence_unknown = "0"
enum_value explicit = "1"
enum_value implicit = "2"
enum_value legacy_required = "3"
enum_value unrecognized = "-1"

unfoldable pub from_json : Js → FeatureSetFieldPresence
from_json (number x) =
    if str_eq x "0"
    then field_presence_unknown
    else if str_eq x "1"
    then explicit
    else if str_eq x "2"
    then implicit
    else if str_eq x "3"
    then legacy_required
    else unrecognized
from_json (str x) =
    if str_eq x "FIELD_PRESENCE_UNKNOWN"
    then field_presence_unknown
    else if str_eq x "EXPLICIT"
    then explicit
    else if str_eq x "IMPLICIT"
    then implicit
    else if str_eq x "LEGACY_REQUIRED"
    then legacy_required
    else unrecognized
from_json _ = unrecognized

unfoldable pub to_json : FeatureSetFieldPresence → String
to_json field_presence_unknown = "FIELD_PRESENCE_UNKNOWN"
to_json explicit = "EXPLICIT"
to_json implicit = "IMPLICIT"
to_json legacy_required = "LEGACY_REQUIRED"
to_json unrecognized = "UNRECOGNIZED"

-- A field that holds a value of the enum, in JSON.
abbrev pub scalar : JsonScalar String
scalar = js_enum from_json to_json enum_value
