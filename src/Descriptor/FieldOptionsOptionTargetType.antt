-- ===== src/Descriptor/FieldOptionsOptionTargetType.antt =====
-- The enum `FieldOptions_OptionTargetType` of web/src/generated/google/protobuf/descriptor.ts and its JSON.
pub mod Json
use sample_grpc_service.Prelude.{String, str_eq, true, false, if◌then◌else◌}
use sample_grpc_service.Js.{Js, number, str}
use sample_grpc_service.Proto.Json.{JsonScalar, js_enum}

pub data FieldOptionsOptionTargetType : Type 0 where
  target_type_unknown target_type_file target_type_extension_range target_type_message
        target_type_field target_type_oneof target_type_enum target_type_enum_entry
        target_type_service target_type_method unrecognized :
      FieldOptionsOptionTargetType

-- The number of a value, as its text.
unfoldable pub enum_value : FieldOptionsOptionTargetType → String
enum_value target_type_unknown = "0"
enum_value target_type_file = "1"
enum_value target_type_extension_range = "2"
enum_value target_type_message = "3"
enum_value target_type_field = "4"
enum_value target_type_oneof = "5"
enum_value target_type_enum = "6"
enum_value target_type_enum_entry = "7"
enum_value target_type_service = "8"
enum_value target_type_method = "9"
enum_value unrecognized = "-1"

unfoldable pub from_json : Js → FieldOptionsOptionTargetType
from_json (number x) =
    if str_eq x "0"
    then target_type_unknown
    else if str_eq x "1"
    then target_type_file
    else if str_eq x "2"
    then target_type_extension_range
    else if str_eq x "3"
    then target_type_message
    else if str_eq x "4"
    then target_type_field
    else if str_eq x "5"
    then target_type_oneof
    else if str_eq x "6"
    then target_type_enum
    else if str_eq x "7"
    then target_type_enum_entry
    else if str_eq x "8"
    then target_type_service
    else if str_eq x "9"
    then target_type_method
    else unrecognized
from_json (str x) =
    if str_eq x "TARGET_TYPE_UNKNOWN"
    then target_type_unknown
    else if str_eq x "TARGET_TYPE_FILE"
    then target_type_file
    else if str_eq x "TARGET_TYPE_EXTENSION_RANGE"
    then target_type_extension_range
    else if str_eq x "TARGET_TYPE_MESSAGE"
    then target_type_message
    else if str_eq x "TARGET_TYPE_FIELD"
    then target_type_field
    else if str_eq x "TARGET_TYPE_ONEOF"
    then target_type_oneof
    else if str_eq x "TARGET_TYPE_ENUM"
    then target_type_enum
    else if str_eq x "TARGET_TYPE_ENUM_ENTRY"
    then target_type_enum_entry
    else if str_eq x "TARGET_TYPE_SERVICE"
    then target_type_service
    else if str_eq x "TARGET_TYPE_METHOD"
    then target_type_method
    else unrecognized
from_json _ = unrecognized

unfoldable pub to_json : FieldOptionsOptionTargetType → String
to_json target_type_unknown = "TARGET_TYPE_UNKNOWN"
to_json target_type_file = "TARGET_TYPE_FILE"
to_json target_type_extension_range = "TARGET_TYPE_EXTENSION_RANGE"
to_json target_type_message = "TARGET_TYPE_MESSAGE"
to_json target_type_field = "TARGET_TYPE_FIELD"
to_json target_type_oneof = "TARGET_TYPE_ONEOF"
to_json target_type_enum = "TARGET_TYPE_ENUM"
to_json target_type_enum_entry = "TARGET_TYPE_ENUM_ENTRY"
to_json target_type_service = "TARGET_TYPE_SERVICE"
to_json target_type_method = "TARGET_TYPE_METHOD"
to_json unrecognized = "UNRECOGNIZED"

-- A field that holds a value of the enum, in JSON.
abbrev pub scalar : JsonScalar String
scalar = js_enum from_json to_json enum_value
