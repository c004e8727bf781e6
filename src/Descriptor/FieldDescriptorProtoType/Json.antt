-- ===== src/Descriptor/FieldDescriptorProtoType/Json.antt =====
-- The JSON of `FieldDescriptorProto_Type`.
use sample_grpc_service.Prelude.{String, ◌≡◌, refl}
use sample_grpc_service.Js.{number, str}
use sample_grpc_service.Proto.{Runtime}
use sample_grpc_service.Proto.Kept.{Enums, FitsEnum}
use sample_grpc_service.Proto.Json.Agrees.{
  JsonAgrees, JsonKept, Known, js_enum-agrees, js_enum-kept,
}
use sample_grpc_service.Descriptor.FieldDescriptorProtoType.{
  FieldDescriptorProtoType, type_double, type_float, type_int64, type_uint64, type_int32,
  type_fixed64, type_fixed32, type_bool, type_string, type_group, type_message, type_bytes,
  type_uint32, type_enum, type_sfixed32, type_sfixed64, type_sint32, type_sint64, unrecognized,
  enum_value, from_json, to_json, scalar,
}

-- For each value of the enum FieldDescriptorProto_Type, reading the name that its `ToJSON` gives
-- and reading its number both give the value.
pub field_descriptor_proto_type_from_json-to_json :
    (e : FieldDescriptorProtoType)
    → (from_json (str (to_json e)) ≡ e) × (from_json (number (enum_value e)) ≡ e)
unfolding from_json to_json enum_value
field_descriptor_proto_type_from_json-to_json type_double = (refl, refl)
field_descriptor_proto_type_from_json-to_json type_float = (refl, refl)
field_descriptor_proto_type_from_json-to_json type_int64 = (refl, refl)
field_descriptor_proto_type_from_json-to_json type_uint64 = (refl, refl)
field_descriptor_proto_type_from_json-to_json type_int32 = (refl, refl)
field_descriptor_proto_type_from_json-to_json type_fixed64 = (refl, refl)
field_descriptor_proto_type_from_json-to_json type_fixed32 = (refl, refl)
field_descriptor_proto_type_from_json-to_json type_bool = (refl, refl)
field_descriptor_proto_type_from_json-to_json type_string = (refl, refl)
field_descriptor_proto_type_from_json-to_json type_group = (refl, refl)
field_descriptor_proto_type_from_json-to_json type_message = (refl, refl)
field_descriptor_proto_type_from_json-to_json type_bytes = (refl, refl)
field_descriptor_proto_type_from_json-to_json type_uint32 = (refl, refl)
field_descriptor_proto_type_from_json-to_json type_enum = (refl, refl)
field_descriptor_proto_type_from_json-to_json type_sfixed32 = (refl, refl)
field_descriptor_proto_type_from_json-to_json type_sfixed64 = (refl, refl)
field_descriptor_proto_type_from_json-to_json type_sint32 = (refl, refl)
field_descriptor_proto_type_from_json-to_json type_sint64 = (refl, refl)
field_descriptor_proto_type_from_json-to_json unrecognized = (refl, refl)

-- The numbers that a field of the enum may hold.
abbrev pub Fits : Runtime → Enums → String → Type 0
Fits e enums n = FitsEnum e enums from_json enum_value n

pub scalar-agrees : JsonAgrees scalar (Known from_json enum_value)
scalar-agrees =
    js_enum-agrees from_json to_json enum_value field_descriptor_proto_type_from_json-to_json

pub scalar-kept : (d : String) → JsonKept scalar (Known from_json enum_value) d
scalar-kept d =
    js_enum-kept from_json to_json enum_value field_descriptor_proto_type_from_json-to_json d
