-- ===== src/Descriptor/FeatureSetRepeatedFieldEncoding.antt =====
-- The enum `FeatureSet_RepeatedFieldEncoding` of web/src/generated/google/protobuf/descriptor.ts and its JSON.
pub mod Json
use sample_grpc_service.Prelude.{String, str_eq, true, false, if◌then◌else◌}
use sample_grpc_service.Js.{Js, number, str}
use sample_grpc_service.Proto.Json.{JsonScalar, js_enum}

pub data FeatureSetRepeatedFieldEncoding : Type 0 where
  repeated_field_encoding_unknown packed expanded unrecognized : FeatureSetRepeatedFieldEncoding

-- The number of a value, as its text.
unfoldable pub enum_value : FeatureSetRepeatedFieldEncoding → String
enum_value repeated_field_encoding_unknown = "0"
enum_value packed = "1"
enum_value expanded = "2"
enum_value unrecognized = "-1"

unfoldable pub from_json : Js → FeatureSetRepeatedFieldEncoding
from_json (number x) =
    if str_eq x "0"
    then repeated_field_encoding_unknown
    else if str_eq x "1"
    then packed
    else if str_eq x "2"
    then expanded
    else unrecognized
from_json (str x) =
    if str_eq x "REPEATED_FIELD_ENCODING_UNKNOWN"
    then repeated_field_encoding_unknown
    else if str_eq x "PACKED"
    then packed
    else if str_eq x "EXPANDED"
    then expanded
    else unrecognized
from_json _ = unrecognized

unfoldable pub to_json : FeatureSetRepeatedFieldEncoding → String
to_json repeated_field_encoding_unknown = "REPEATED_FIELD_ENCODING_UNKNOWN"
to_json packed = "PACKED"
to_json expanded = "EXPANDED"
to_json unrecognized = "UNRECOGNIZED"

-- A field that holds a value of the enum, in JSON.
abbrev pub scalar : JsonScalar String
scalar = js_enum from_json to_json enum_value
