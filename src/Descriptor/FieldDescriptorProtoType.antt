-- ===== src/Descriptor/FieldDescriptorProtoType.antt =====
-- The enum `FieldDescriptorProto_Type` of web/src/generated/google/protobuf/descriptor.ts and its JSON.
pub mod Json
use sample_grpc_service.Prelude.{String, str_eq, true, false, if◌then◌else◌}
use sample_grpc_service.Js.{Js, number, str}
use sample_grpc_service.Proto.Json.{JsonScalar, js_enum}

pub data FieldDescriptorProtoType : Type 0 where
  type_double type_float type_int64 type_uint64 type_int32 type_fixed64 type_fixed32 type_bool
        type_string type_group type_message type_bytes type_uint32 type_enum type_sfixed32
        type_sfixed64 type_sint32 type_sint64 unrecognized :
      FieldDescriptorProtoType

-- The number of a value, as its text.
unfoldable pub enum_value : FieldDescriptorProtoType → String
enum_value type_double = "1"
enum_value type_float = "2"
enum_value type_int64 = "3"
enum_value type_uint64 = "4"
enum_value type_int32 = "5"
enum_value type_fixed64 = "6"
enum_value type_fixed32 = "7"
enum_value type_bool = "8"
enum_value type_string = "9"
enum_value type_group = "10"
enum_value type_message = "11"
enum_value type_bytes = "12"
enum_value type_uint32 = "13"
enum_value type_enum = "14"
enum_value type_sfixed32 = "15"
enum_value type_sfixed64 = "16"
enum_value type_sint32 = "17"
enum_value type_sint64 = "18"
enum_value unrecognized = "-1"

unfoldable pub from_json : Js → FieldDescriptorProtoType
from_json (number x) =
    if str_eq x "1"
    then type_double
    else if str_eq x "2"
    then type_float
    else if str_eq x "3"
    then type_int64
    else if str_eq x "4"
    then type_uint64
    else if str_eq x "5"
    then type_int32
    else if str_eq x "6"
    then type_fixed64
    else if str_eq x "7"
    then type_fixed32
    else if str_eq x "8"
    then type_bool
    else if str_eq x "9"
    then type_string
    else if str_eq x "10"
    then type_group
    else if str_eq x "11"
    then type_message
    else if str_eq x "12"
    then type_bytes
    else if str_eq x "13"
    then type_uint32
    else if str_eq x "14"
    then type_enum
    else if str_eq x "15"
    then type_sfixed32
    else if str_eq x "16"
    then type_sfixed64
    else if str_eq x "17"
    then type_sint32
    else if str_eq x "18"
    then type_sint64
    else unrecognized
from_json (str x) =
    if str_eq x "TYPE_DOUBLE"
    then type_double
    else if str_eq x "TYPE_FLOAT"
    then type_float
    else if str_eq x "TYPE_INT64"
    then type_int64
    else if str_eq x "TYPE_UINT64"
    then type_uint64
    else if str_eq x "TYPE_INT32"
    then type_int32
    else if str_eq x "TYPE_FIXED64"
    then type_fixed64
    else if str_eq x "TYPE_FIXED32"
    then type_fixed32
    else if str_eq x "TYPE_BOOL"
    then type_bool
    else if str_eq x "TYPE_STRING"
    then type_string
    else if str_eq x "TYPE_GROUP"
    then type_group
    else if str_eq x "TYPE_MESSAGE"
    then type_message
    else if str_eq x "TYPE_BYTES"
    then type_bytes
    else if str_eq x "TYPE_UINT32"
    then type_uint32
    else if str_eq x "TYPE_ENUM"
    then type_enum
    else if str_eq x "TYPE_SFIXED32"
    then type_sfixed32
    else if str_eq x "TYPE_SFIXED64"
    then type_sfixed64
    else if str_eq x "TYPE_SINT32"
    then type_sint32
    else if str_eq x "TYPE_SINT64"
    then type_sint64
    else unrecognized
from_json _ = unrecognized

unfoldable pub to_json : FieldDescriptorProtoType → String
to_json type_double = "TYPE_DOUBLE"
to_json type_float = "TYPE_FLOAT"
to_json type_int64 = "TYPE_INT64"
to_json type_uint64 = "TYPE_UINT64"
to_json type_int32 = "TYPE_INT32"
to_json type_fixed64 = "TYPE_FIXED64"
to_json type_fixed32 = "TYPE_FIXED32"
to_json type_bool = "TYPE_BOOL"
to_json type_string = "TYPE_STRING"
to_json type_group = "TYPE_GROUP"
to_json type_message = "TYPE_MESSAGE"
to_json type_bytes = "TYPE_BYTES"
to_json type_uint32 = "TYPE_UINT32"
to_json type_enum = "TYPE_ENUM"
to_json type_sfixed32 = "TYPE_SFIXED32"
to_json type_sfixed64 = "TYPE_SFIXED64"
to_json type_sint32 = "TYPE_SINT32"
to_json type_sint64 = "TYPE_SINT64"
to_json unrecognized = "UNRECOGNIZED"

-- A field that holds a value of the enum, in JSON.
abbrev pub scalar : JsonScalar String
scalar = js_enum from_json to_json enum_value
