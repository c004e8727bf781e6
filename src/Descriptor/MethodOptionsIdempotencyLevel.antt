-- ===== src/Descriptor/MethodOptionsIdempotencyLevel.antt =====
-- The enum `MethodOptions_IdempotencyLevel` of web/src/generated/google/protobuf/descriptor.ts and its JSON.
pub mod Json
use sample_grpc_service.Prelude.{String, str_eq, true, false, if◌then◌else◌}
use sample_grpc_service.Js.{Js, number, str}
use sample_grpc_service.Proto.Json.{JsonScalar, js_enum}

pub data MethodOptionsIdempotencyLevel : Type 0 where
  idempotency_unknown no_side_effects idempotent unrecognized : MethodOptionsIdempotencyLevel

-- The number of a value, as its text.
unfoldable pub enum_value : MethodOptionsIdempotencyLevel → String
enum_value idempotency_unknown = "0"
enum_value no_side_effects = "1"
enum_value idempotent = "2"
enum_value unrecognized = "-1"

unfoldable pub from_json : Js → MethodOptionsIdempotencyLevel
from_json (number x) =
    if str_eq x "0"
    then idempotency_unknown
    else if str_eq x "1"
    then no_side_effects
    else if str_eq x "2"
    then idempotent
    else unrecognized
from_json (str x) =
    if str_eq x "IDEMPOTENCY_UNKNOWN"
    then idempotency_unknown
    else if str_eq x "NO_SIDE_EFFECTS"
    then no_side_effects
    else if str_eq x "IDEMPOTENT"
    then idempotent
    else unrecognized
from_json _ = unrecognized

unfoldable pub to_json : MethodOptionsIdempotencyLevel → String
to_json idempotency_unknown = "IDEMPOTENCY_UNKNOWN"
to_json no_side_effects = "NO_SIDE_EFFECTS"
to_json idempotent = "IDEMPOTENT"
to_json unrecognized = "UNRECOGNIZED"

-- A field that holds a value of the enum, in JSON.
abbrev pub scalar : JsonScalar String
scalar = js_enum from_json to_json enum_value
