-- ===== src/Descriptor/FieldOptionsOptionRetention.antt =====
-- The enum `FieldOptions_OptionRetention` of web/src/generated/google/protobuf/descriptor.ts and its JSON.
pub mod Json
use sample_grpc_service.Prelude.{String, str_eq, true, false, if◌then◌else◌}
use sample_grpc_service.Js.{Js, number, str}
use sample_grpc_service.Proto.Json.{JsonScalar, js_enum}

pub data FieldOptionsOptionRetention : Type 0 where
  retention_unknown retention_runtime retention_source unrecognized : FieldOptionsOptionRetention

-- The number of a value, as its text.
unfoldable pub enum_value : FieldOptionsOptionRetention → String
enum_value retention_unknown = "0"
enum_value retention_runtime = "1"
enum_value retention_source = "2"
enum_value unrecognized = "-1"

unfoldable pub from_json : Js → FieldOptionsOptionRetention
from_json (number x) =
    if str_eq x "0"
    then retention_unknown
    else if str_eq x "1"
    then retention_runtime
    else if str_eq x "2"
    then retention_source
    else unrecognized
from_json (str x) =
    if str_eq x "RETENTION_UNKNOWN"
    then retention_unknown
    else if str_eq x "RETENTION_RUNTIME"
    then retention_runtime
    else if str_eq x "RETENTION_SOURCE"
    then retention_source
    else unrecognized
from_json _ = unrecognized

unfoldable pub to_json : FieldOptionsOptionRetention → String
to_json retention_unknown = "RETENTION_UNKNOWN"
to_json retention_runtime = "RETENTION_RUNTIME"
to_json retention_source = "RETENTION_SOURCE"
to_json unrecognized = "UNRECOGNIZED"

-- A field that holds a value of the enum, in JSON.
abbrev pub scalar : JsonScalar String
scalar = js_enum from_json to_json enum_value
