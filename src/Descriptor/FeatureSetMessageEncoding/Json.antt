-- ===== src/Descriptor/FeatureSetMessageEncoding/Json.antt =====
-- The JSON of `FeatureSet_MessageEncoding`.
use sample_grpc_service.Prelude.{String, ◌≡◌, refl}
use sample_grpc_service.Js.{number, str}
use sample_grpc_service.Proto.{Runtime}
use sample_grpc_service.Proto.Kept.{Enums, FitsEnum}
use sample_grpc_service.Proto.Json.Agrees.{
  JsonAgrees, JsonKept, Known, js_enum-agrees, js_enum-kept,
}
use sample_grpc_service.Descriptor.FeatureSetMessageEncoding.{
  FeatureSetMessageEncoding, message_encoding_unknown, length_prefixed, delimited, unrecognized,
  enum_value, from_json, to_json, scalar,
}

-- Reading the name that was written for a value gives the value, and so does reading its number.
pub feature_set_message_encoding_from_json-to_json :
    (e : FeatureSetMessageEncoding)
    → (from_json (str (to_json e)) ≡ e) × (from_json (number (enum_value e)) ≡ e)
unfolding from_json to_json enum_value
feature_set_message_encoding_from_json-to_json message_encoding_unknown = (refl, refl)
feature_set_message_encoding_from_json-to_json length_prefixed = (refl, refl)
feature_set_message_encoding_from_json-to_json delimited = (refl, refl)
feature_set_message_encoding_from_json-to_json unrecognized = (refl, refl)

-- The numbers that a field of the enum may hold.
abbrev pub Fits : Runtime → Enums → String → Type 0
Fits e enums n = FitsEnum e enums from_json enum_value n

pub scalar-agrees : JsonAgrees scalar (Known from_json enum_value)
scalar-agrees =
    js_enum-agrees from_json to_json enum_value feature_set_message_encoding_from_json-to_json

pub scalar-kept : (d : String) → JsonKept scalar (Known from_json enum_value) d
scalar-kept d =
    js_enum-kept from_json to_json enum_value feature_set_message_encoding_from_json-to_json d
