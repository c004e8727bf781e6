-- ===== src/Descriptor/FieldOptionsJsType.antt =====
-- The enum `FieldOptions_JSType` of web/src/generated/google/protobuf/descriptor.ts and its JSON.
pub mod Json
use sample_grpc_service.Prelude.{String, str_eq, true, false, if◌then◌else◌}
use sample_grpc_service.Js.{Js, number, str}
use sample_grpc_service.Proto.Json.{JsonScalar, js_enum}

pub data FieldOptionsJsType : Type 0 where
  js_normal js_string js_number unrecognized : FieldOptionsJsType

-- The number of a value, as its text.
unfoldable pub enum_value : FieldOptionsJsType → String
enum_value js_normal = "0"
enum_value js_string = "1"
enum_value js_number = "2"
enum_value unrecognized = "-1"

unfoldable pub from_json : Js → FieldOptionsJsType
from_json (number x) =
    if str_eq x "0"
    then js_normal
    else if str_eq x "1"
    then js_string
    else if str_eq x "2"
    then js_number
    else unrecognized
from_json (str x) =
    if str_eq x "JS_NORMAL"
    then js_normal
    else if str_eq x "JS_STRING"
    then js_string
    else if str_eq x "JS_NUMBER"
    then js_number
    else unrecognized
from_json _ = unrecognized

unfoldable pub to_json : FieldOptionsJsType → String
to_json js_normal = "JS_NORMAL"
to_json js_string = "JS_STRING"
to_json js_number = "JS_NUMBER"
to_json unrecognized = "UNRECOGNIZED"

-- A field that holds a value of the enum, in JSON.
abbrev pub scalar : JsonScalar String
scalar = js_enum from_json to_json enum_value
