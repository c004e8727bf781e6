-- ===== src/Descriptor/FieldDescriptorProtoLabel.antt =====
-- The enum `FieldDescriptorProto_Label` of web/src/generated/google/protobuf/descriptor.ts and its JSON.
pub mod Json
use sample_grpc_service.Prelude.{String, str_eq, true, false, if◌then◌else◌}
use sample_grpc_service.Js.{Js, number, str}
use sample_grpc_service.Proto.Json.{JsonScalar, js_enum}

pub data FieldDescriptorProtoLabel : Type 0 where
  label_optional label_repeated label_required unrecognized : FieldDescriptorProtoLabel

-- The number of a value, as its text.
unfoldable pub enum_value : FieldDescriptorProtoLabel → String
enum_value label_optional = "1"
enum_value label_repeated = "3"
enum_value label_required = "2"
enum_value unrecognized = "-1"

unfoldable pub from_json : Js → FieldDescriptorProtoLabel
from_json (number x) =
    if str_eq x "1"
    then label_optional
    else if str_eq x "3"
    then label_repeated
    else if str_eq x "2"
    then label_required
    else unrecognized
from_json (str x) =
    if str_eq x "LABEL_OPTIONAL"
    then label_optional
    else if str_eq x "LABEL_REPEATED"
    then label_repeated
    else if str_eq x "LABEL_REQUIRED"
    then label_required
    else unrecognized
from_json _ = unrecognized

unfoldable pub to_json : FieldDescriptorProtoLabel → String
to_json label_optional = "LABEL_OPTIONAL"
to_json label_repeated = "LABEL_REPEATED"
to_json label_required = "LABEL_REQUIRED"
to_json unrecognized = "UNRECOGNIZED"

-- A field that holds a value of the enum, in JSON.
abbrev pub scalar : JsonScalar String
scalar = js_enum from_json to_json enum_value
