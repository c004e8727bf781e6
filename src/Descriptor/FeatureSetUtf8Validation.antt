-- ===== src/Descriptor/FeatureSetUtf8Validation.antt =====
-- The enum `FeatureSet_Utf8Validation` of web/src/generated/google/protobuf/descriptor.ts and its JSON.
pub mod Json
use sample_grpc_service.Prelude.{String, str_eq, true, false, if◌then◌else◌}
use sample_grpc_service.Js.{Js, number, str}
use sample_grpc_service.Proto.Json.{JsonScalar, js_enum}

pub data FeatureSetUtf8Validation : Type 0 where
  utf8_validation_unknown verify none unrecognized : FeatureSetUtf8Validation

-- The number of a value, as its text.
unfoldable pub enum_value : FeatureSetUtf8Validation → String
enum_value utf8_validation_unknown = "0"
enum_value verify = "2"
enum_value none = "3"
enum_value unrecognized = "-1"

unfoldable pub from_json : Js → FeatureSetUtf8Validation
from_json (number x) =
    if str_eq x "0"
    then utf8_validation_unknown
    else if str_eq x "2"
    then verify
    else if str_eq x "3"
    then none
    else unrecognized
from_json (str x) =
    if str_eq x "UTF8_VALIDATION_UNKNOWN"
    then utf8_validation_unknown
    else if str_eq x "VERIFY"
    then verify
    else if str_eq x "NONE"
    then none
    else unrecognized
from_json _ = unrecognized

unfoldable pub to_json : FeatureSetUtf8Validation → String
to_json utf8_validation_unknown = "UTF8_VALIDATION_UNKNOWN"
to_json verify = "VERIFY"
to_json none = "NONE"
to_json unrecognized = "UNRECOGNIZED"

-- A field that holds a value of the enum, in JSON.
abbrev pub scalar : JsonScalar String
scalar = js_enum from_json to_json enum_value
