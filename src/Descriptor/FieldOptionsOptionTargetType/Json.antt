-- ===== src/Descriptor/FieldOptionsOptionTargetType/Json.antt =====
-- The JSON of `FieldOptions_OptionTargetType`.
use sample_grpc_service.Prelude.{String, ◌≡◌, refl}
use sample_grpc_service.Js.{number, str}
use sample_grpc_service.Proto.{Runtime}
use sample_grpc_service.Proto.Kept.{Enums, FitsEnum}
use sample_grpc_service.Proto.Json.Agrees.{
  JsonAgrees, JsonKept, Known, js_enum-agrees, js_enum-kept,
}
use sample_grpc_service.Descriptor.FieldOptionsOptionTargetType.{
  FieldOptionsOptionTargetType, target_type_unknown, target_type_file, target_type_extension_range,
  target_type_message, target_type_field, target_type_oneof, target_type_enum,
  target_type_enum_entry, target_type_service, target_type_method, unrecognized, enum_value,
  from_json, to_json, scalar,
}

-- Reading the name that was written for a value gives the value, and so does reading its number.
pub field_options_option_target_type_from_json-to_json :
    (e : FieldOptionsOptionTargetType)
    → (from_json (str (to_json e)) ≡ e) × (from_json (number (enum_value e)) ≡ e)
unfolding from_json to_json enum_value
field_options_option_target_type_from_json-to_json target_type_unknown = (refl, refl)
field_options_option_target_type_from_json-to_json target_type_file = (refl, refl)
field_options_option_target_type_from_json-to_json target_type_extension_range = (refl, refl)
field_options_option_target_type_from_json-to_json target_type_message = (refl, refl)
field_options_option_target_type_from_json-to_json target_type_field = (refl, refl)
field_options_option_target_type_from_json-to_json target_type_oneof = (refl, refl)
field_options_option_target_type_from_json-to_json target_type_enum = (refl, refl)
field_options_option_target_type_from_json-to_json target_type_enum_entry = (refl, refl)
field_options_option_target_type_from_json-to_json target_type_service = (refl, refl)
field_options_option_target_type_from_json-to_json target_type_method = (refl, refl)
field_options_option_target_type_from_json-to_json unrecognized = (refl, refl)

-- The numbers that a field of the enum may hold.
abbrev pub Fits : Runtime → Enums → String → Type 0
Fits e enums n = FitsEnum e enums from_json enum_value n

pub scalar-agrees : JsonAgrees scalar (Known from_json enum_value)
scalar-agrees =
    js_enum-agrees from_json to_json enum_value field_options_option_target_type_from_json-to_json

pub scalar-kept : (d : String) → JsonKept scalar (Known from_json enum_value) d
scalar-kept d =
    js_enum-kept from_json to_json enum_value field_options_option_target_type_from_json-to_json d
