-- ===== src/Descriptor/Edition/Json.antt =====
-- The JSON of `Edition`.
use sample_grpc_service.Prelude.{String, ◌≡◌, refl}
use sample_grpc_service.Js.{number, str}
use sample_grpc_service.Proto.{Runtime}
use sample_grpc_service.Proto.Kept.{Enums, FitsEnum}
use sample_grpc_service.Proto.Json.Agrees.{
  JsonAgrees, JsonKept, Known, js_enum-agrees, js_enum-kept,
}
use sample_grpc_service.Descriptor.Edition.{
  Edition, edition_unknown, edition_legacy, edition_proto2, edition_proto3, edition_2023,
  edition_2024, edition_1_test_only, edition_2_test_only, edition_99997_test_only,
  edition_99998_test_only, edition_99999_test_only, edition_max, unrecognized, enum_value,
  from_json, to_json, scalar,
}

-- For each value of the enum Edition, reading the name that its `ToJSON` gives and reading its
-- number both give the value.
pub edition_from_json-to_json :
    (e : Edition) → (from_json (str (to_json e)) ≡ e) × (from_json (number (enum_value e)) ≡ e)
unfolding from_json to_json enum_value
edition_from_json-to_json edition_unknown = (refl, refl)
edition_from_json-to_json edition_legacy = (refl, refl)
edition_from_json-to_json edition_proto2 = (refl, refl)
edition_from_json-to_json edition_proto3 = (refl, refl)
edition_from_json-to_json edition_2023 = (refl, refl)
edition_from_json-to_json edition_2024 = (refl, refl)
edition_from_json-to_json edition_1_test_only = (refl, refl)
edition_from_json-to_json edition_2_test_only = (refl, refl)
edition_from_json-to_json edition_99997_test_only = (refl, refl)
edition_from_json-to_json edition_99998_test_only = (refl, refl)
edition_from_json-to_json edition_99999_test_only = (refl, refl)
edition_from_json-to_json edition_max = (refl, refl)
edition_from_json-to_json unrecognized = (refl, refl)

-- The numbers that a field of the enum may hold.
abbrev pub Fits : Runtime → Enums → String → Type 0
Fits e enums n = FitsEnum e enums from_json enum_value n

pub scalar-agrees : JsonAgrees scalar (Known from_json enum_value)
scalar-agrees = js_enum-agrees from_json to_json enum_value edition_from_json-to_json

pub scalar-kept : (d : String) → JsonKept scalar (Known from_json enum_value) d
scalar-kept d = js_enum-kept from_json to_json enum_value edition_from_json-to_json d
