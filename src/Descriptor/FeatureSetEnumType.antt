-- ===== src/Descriptor/FeatureSetEnumType.antt =====
-- The enum `FeatureSet_EnumType` of web/src/generated/google/protobuf/descriptor.ts and its JSON.
pub mod Json
use sample_grpc_service.Prelude.{String, str_eq, true, false, if◌then◌else◌}
use sample_grpc_service.Js.{Js, number, str}
use sample_grpc_service.Proto.Json.{JsonScalar, js_enum}

pub data FeatureSetEnumType : Type 0 where
  enum_type_unknown open_enum closed unrecognized : FeatureSetEnumType

-- The number of a value, as its text.
unfoldable pub enum_value : FeatureSetEnumType → String
enum_value enum_type_unknown = "0"
enum_value open_enum = "1"
enum_value closed = "2"
enum_value unrecognized = "-1"

unfoldable pub from_json : Js → FeatureSetEnumType
from_json (number x) =
    if str_eq x "0"
    then enum_type_unknown
    else if str_eq x "1"
    then open_enum
    else if str_eq x "2"
    then closed
    else unrecognized
from_json (str x) =
    if str_eq x "ENUM_TYPE_UNKNOWN"
    then enum_type_unknown
    else if str_eq x "OPEN"
    then open_enum
    else if str_eq x "CLOSED"
    then closed
    else unrecognized
from_json _ = unrecognized

unfoldable pub to_json : FeatureSetEnumType → String
to_json enum_type_unknown = "ENUM_TYPE_UNKNOWN"
to_json open_enum = "OPEN"
to_json closed = "CLOSED"
to_json unrecognized = "UNRECOGNIZED"

-- A field that holds a value of the enum, in JSON.
abbrev pub scalar : JsonScalar String
scalar = js_enum from_json to_json enum_value
