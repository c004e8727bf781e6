-- ===== src/Descriptor/ExtensionRangeOptionsVerificationState.antt =====
-- The enum `ExtensionRangeOptions_VerificationState` of web/src/generated/google/protobuf/descriptor.ts and its JSON.
pub mod Json
use sample_grpc_service.Prelude.{String, str_eq, true, false, if◌then◌else◌}
use sample_grpc_service.Js.{Js, number, str}
use sample_grpc_service.Proto.Json.{JsonScalar, js_enum}

pub data ExtensionRangeOptionsVerificationState : Type 0 where
  declaration unverified unrecognized : ExtensionRangeOptionsVerificationState

-- The number of a value, as its text.
unfoldable pub enum_value : ExtensionRangeOptionsVerificationState → String
enum_value declaration = "0"
enum_value unverified = "1"
enum_value unrecognized = "-1"

unfoldable pub from_json : Js → ExtensionRangeOptionsVerificationState
from_json (number x) =
    if str_eq x "0" then declaration else if str_eq x "1" then unverified else unrecognized
from_json (str x) =
    if str_eq x "DECLARATION"
    then declaration
    else if str_eq x "UNVERIFIED"
    then unverified
    else unrecognized
from_json _ = unrecognized

unfoldable pub to_json : ExtensionRangeOptionsVerificationState → String
to_json declaration = "DECLARATION"
to_json unverified = "UNVERIFIED"
to_json unrecognized = "UNRECOGNIZED"

-- A field that holds a value of the enum, in JSON.
abbrev pub scalar : JsonScalar String
scalar = js_enum from_json to_json enum_value
