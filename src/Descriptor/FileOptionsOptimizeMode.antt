-- ===== src/Descriptor/FileOptionsOptimizeMode.antt =====
-- The enum `FileOptions_OptimizeMode` of web/src/generated/google/protobuf/descriptor.ts and its JSON.
pub mod Json
use sample_grpc_service.Prelude.{String, str_eq, true, false, if◌then◌else◌}
use sample_grpc_service.Js.{Js, number, str}
use sample_grpc_service.Proto.Json.{JsonScalar, js_enum}

pub data FileOptionsOptimizeMode : Type 0 where
  speed code_size lite_runtime unrecognized : FileOptionsOptimizeMode

-- The number of a value, as its text.
unfoldable pub enum_value : FileOptionsOptimizeMode → String
enum_value speed = "1"
enum_value code_size = "2"
enum_value lite_runtime = "3"
enum_value unrecognized = "-1"

unfoldable pub from_json : Js → FileOptionsOptimizeMode
from_json (number x) =
    if str_eq x "1"
    then speed
    else if str_eq x "2"
    then code_size
    else if str_eq x "3"
    then lite_runtime
    else unrecognized
from_json (str x) =
    if str_eq x "SPEED"
    then speed
    else if str_eq x "CODE_SIZE"
    then code_size
    else if str_eq x "LITE_RUNTIME"
    then lite_runtime
    else unrecognized
from_json _ = unrecognized

unfoldable pub to_json : FileOptionsOptimizeMode → String
to_json speed = "SPEED"
to_json code_size = "CODE_SIZE"
to_json lite_runtime = "LITE_RUNTIME"
to_json unrecognized = "UNRECOGNIZED"

-- A field that holds a value of the enum, in JSON.
abbrev pub scalar : JsonScalar String
scalar = js_enum from_json to_json enum_value
