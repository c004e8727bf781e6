-- ===== src/Descriptor/FeatureSetJsonFormat.antt =====
-- The enum `FeatureSet_JsonFormat` of web/src/generated/google/protobuf/descriptor.ts and its JSON.
pub mod Json
use sample_grpc_service.Prelude.{String, str_eq, true, false, if◌then◌else◌}
use sample_grpc_service.Js.{Js, number, str}
use sample_grpc_service.Proto.Json.{JsonScalar, js_enum}

pub data FeatureSetJsonFormat : Type 0 where
  json_format_unknown allow legacy_best_effort unrecognized : FeatureSetJsonFormat

-- The number of a value, as its text.
unfoldable pub enum_value : FeatureSetJsonFormat → String
enum_value json_format_unknown = "0"
enum_value allow = "1"
enum_value legacy_best_effort = "2"
enum_value unrecognized = "-1"

unfoldable pub from_json : Js → FeatureSetJsonFormat
from_json (number x) =
    if str_eq x "0"
    then json_format_unknown
    else if str_eq x "1"
    then allow
    else if str_eq x "2"
    then legacy_best_effort
    else unrecognized
from_json (str x) =
    if str_eq x "JSON_FORMAT_UNKNOWN"
    then json_format_unknown
    else if str_eq x "ALLOW"
    then allow
    else if str_eq x "LEGACY_BEST_EFFORT"
    then legacy_best_effort
    else unrecognized
from_json _ = unrecognized

unfoldable pub to_json : FeatureSetJsonFormat → String
to_json json_format_unknown = "JSON_FORMAT_UNKNOWN"
to_json allow = "ALLOW"
to_json legacy_best_effort = "LEGACY_BEST_EFFORT"
to_json unrecognized = "UNRECOGNIZED"

-- A field that holds a value of the enum, in JSON.
abbrev pub scalar : JsonScalar String
scalar = js_enum from_json to_json enum_value
