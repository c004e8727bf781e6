-- ===== src/Descriptor/FieldOptionsCType.antt =====
-- The enum `FieldOptions_CType` of web/src/generated/google/protobuf/descriptor.ts and its JSON.
pub mod Json
use sample_grpc_service.Prelude.{String, str_eq, true, false, if◌then◌else◌}
use sample_grpc_service.Js.{Js, number, str}
use sample_grpc_service.Proto.Json.{JsonScalar, js_enum}

pub data FieldOptionsCType : Type 0 where
  string cord string_piece unrecognized : FieldOptionsCType

-- The number of a value, as its text.
unfoldable pub enum_value : FieldOptionsCType → String
enum_value string = "0"
enum_value cord = "1"
enum_value string_piece = "2"
enum_value unrecognized = "-1"

unfoldable pub from_json : Js → FieldOptionsCType
from_json (number x) =
    if str_eq x "0"
    then string
    else if str_eq x "1"
    then cord
    else if str_eq x "2"
    then string_piece
    else unrecognized
from_json (str x) =
    if str_eq x "STRING"
    then string
    else if str_eq x "CORD"
    then cord
    else if str_eq x "STRING_PIECE"
    then string_piece
    else unrecognized
from_json _ = unrecognized

unfoldable pub to_json : FieldOptionsCType → String
to_json string = "STRING"
to_json cord = "CORD"
to_json string_piece = "STRING_PIECE"
to_json unrecognized = "UNRECOGNIZED"

-- A field that holds a value of the enum, in JSON.
abbrev pub scalar : JsonScalar String
scalar = js_enum from_json to_json enum_value
