-- ===== src/Descriptor/FeatureSetMessageEncoding.antt =====
-- The enum `FeatureSet_MessageEncoding` of web/src/generated/google/protobuf/descriptor.ts and its JSON.
pub mod Json
use sample_grpc_service.Prelude.{String, str_eq, true, false, if◌then◌else◌}
use sample_grpc_service.Js.{Js, number, str}
use sample_grpc_service.Proto.Json.{JsonScalar, js_enum}

pub data FeatureSetMessageEncoding : Type 0 where
  message_encoding_unknown length_prefixed delimited unrecognized : FeatureSetMessageEncoding

-- The number of a value, as its text.
unfoldable pub enum_value : FeatureSetMessageEncoding → String
enum_value message_encoding_unknown = "0"
enum_value length_prefixed = "1"
enum_value delimited = "2"
enum_value unrecognized = "-1"

unfoldable pub from_json : Js → FeatureSetMessageEncoding
from_json (number x) =
    if str_eq x "0"
    then message_encoding_unknown
    else if str_eq x "1"
    then length_prefixed
    else if str_eq x "2"
    then delimited
    else unrecognized
from_json (str x) =
    if str_eq x "MESSAGE_ENCODING_UNKNOWN"
    then message_encoding_unknown
    else if str_eq x "LENGTH_PREFIXED"
    then length_prefixed
    else if str_eq x "DELIMITED"
    then delimited
    else unrecognized
from_json _ = unrecognized

unfoldable pub to_json : FeatureSetMessageEncoding → String
to_json message_encoding_unknown = "MESSAGE_ENCODING_UNKNOWN"
to_json length_prefixed = "LENGTH_PREFIXED"
to_json delimited = "DELIMITED"
to_json unrecognized = "UNRECOGNIZED"

-- A field that holds a value of the enum, in JSON.
abbrev pub scalar : JsonScalar String
scalar = js_enum from_json to_json enum_value
