-- ===== src/Descriptor/FeatureSetEnforceNamingStyle.antt =====
-- The enum `FeatureSet_EnforceNamingStyle` of web/src/generated/google/protobuf/descriptor.ts and its JSON.
pub mod Json
use sample_grpc_service.Prelude.{String, str_eq, true, false, if◌then◌else◌}
use sample_grpc_service.Js.{Js, number, str}
use sample_grpc_service.Proto.Json.{JsonScalar, js_enum}

pub data FeatureSetEnforceNamingStyle : Type 0 where
  enforce_naming_style_unknown style2024 style_legacy unrecognized : FeatureSetEnforceNamingStyle

-- The number of a value, as its text.
unfoldable pub enum_value : FeatureSetEnforceNamingStyle → String
enum_value enforce_naming_style_unknown = "0"
enum_value style2024 = "1"
enum_value style_legacy = "2"
enum_value unrecognized = "-1"

unfoldable pub from_json : Js → FeatureSetEnforceNamingStyle
from_json (number x) =
    if str_eq x "0"
    then enforce_naming_style_unknown
    else if str_eq x "1"
    then style2024
    else if str_eq x "2"
    then style_legacy
    else unrecognized
from_json (str x) =
    if str_eq x "ENFORCE_NAMING_STYLE_UNKNOWN"
    then enforce_naming_style_unknown
    else if str_eq x "STYLE2024"
    then style2024
    else if str_eq x "STYLE_LEGACY"
    then style_legacy
    else unrecognized
from_json _ = unrecognized

unfoldable pub to_json : FeatureSetEnforceNamingStyle → String
to_json enforce_naming_style_unknown = "ENFORCE_NAMING_STYLE_UNKNOWN"
to_json style2024 = "STYLE2024"
to_json style_legacy = "STYLE_LEGACY"
to_json unrecognized = "UNRECOGNIZED"

-- A field that holds a value of the enum, in JSON.
abbrev pub scalar : JsonScalar String
scalar = js_enum from_json to_json enum_value
