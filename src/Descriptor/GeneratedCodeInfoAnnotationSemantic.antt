-- ===== src/Descriptor/GeneratedCodeInfoAnnotationSemantic.antt =====
-- The enum `GeneratedCodeInfo_Annotation_Semantic` of web/src/generated/google/protobuf/descriptor.ts and its JSON.
pub mod Json
use sample_grpc_service.Prelude.{String, str_eq, true, false, if◌then◌else◌}
use sample_grpc_service.Js.{Js, number, str}
use sample_grpc_service.Proto.Json.{JsonScalar, js_enum}

pub data GeneratedCodeInfoAnnotationSemantic : Type 0 where
  none set alias unrecognized : GeneratedCodeInfoAnnotationSemantic

-- The number of a value, as its text.
unfoldable pub enum_value : GeneratedCodeInfoAnnotationSemantic → String
enum_value none = "0"
enum_value set = "1"
enum_value alias = "2"
enum_value unrecognized = "-1"

unfoldable pub from_json : Js → GeneratedCodeInfoAnnotationSemantic
from_json (number x) =
    if str_eq x "0"
    then none
    else if str_eq x "1"
    then set
    else if str_eq x "2"
    then alias
    else unrecognized
from_json (str x) =
    if str_eq x "NONE"
    then none
    else if str_eq x "SET"
    then set
    else if str_eq x "ALIAS"
    then alias
    else unrecognized
from_json _ = unrecognized

unfoldable pub to_json : GeneratedCodeInfoAnnotationSemantic → String
to_json none = "NONE"
to_json set = "SET"
to_json alias = "ALIAS"
to_json unrecognized = "UNRECOGNIZED"

-- A field that holds a value of the enum, in JSON.
abbrev pub scalar : JsonScalar String
scalar = js_enum from_json to_json enum_value
