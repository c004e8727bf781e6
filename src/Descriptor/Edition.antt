-- ===== src/Descriptor/Edition.antt =====
-- The enum `Edition` of web/src/generated/google/protobuf/descriptor.ts and its JSON.
pub mod Json
use sample_grpc_service.Prelude.{String, str_eq, true, false, if◌then◌else◌}
use sample_grpc_service.Js.{Js, number, str}
use sample_grpc_service.Proto.Json.{JsonScalar, js_enum}

pub data Edition : Type 0 where
  edition_unknown edition_legacy edition_proto2 edition_proto3 edition_2023 edition_2024
        edition_1_test_only edition_2_test_only edition_99997_test_only edition_99998_test_only
        edition_99999_test_only edition_max unrecognized :
      Edition

-- The number of a value, as its text.
unfoldable pub enum_value : Edition → String
enum_value edition_unknown = "0"
enum_value edition_legacy = "900"
enum_value edition_proto2 = "998"
enum_value edition_proto3 = "999"
enum_value edition_2023 = "1000"
enum_value edition_2024 = "1001"
enum_value edition_1_test_only = "1"
enum_value edition_2_test_only = "2"
enum_value edition_99997_test_only = "99997"
enum_value edition_99998_test_only = "99998"
enum_value edition_99999_test_only = "99999"
enum_value edition_max = "2147483647"
enum_value unrecognized = "-1"

unfoldable pub from_json : Js → Edition
from_json (number x) =
    if str_eq x "0"
    then edition_unknown
    else if str_eq x "900"
    then edition_legacy
    else if str_eq x "998"
    then edition_proto2
    else if str_eq x "999"
    then edition_proto3
    else if str_eq x "1000"
    then edition_2023
    else if str_eq x "1001"
    then edition_2024
    else if str_eq x "1"
    then edition_1_test_only
    else if str_eq x "2"
    then edition_2_test_only
    else if str_eq x "99997"
    then edition_99997_test_only
    else if str_eq x "99998"
    then edition_99998_test_only
    else if str_eq x "99999"
    then edition_99999_test_only
    else if str_eq x "2147483647"
    then edition_max
    else unrecognized
from_json (str x) =
    if str_eq x "EDITION_UNKNOWN"
    then edition_unknown
    else if str_eq x "EDITION_LEGACY"
    then edition_legacy
    else if str_eq x "EDITION_PROTO2"
    then edition_proto2
    else if str_eq x "EDITION_PROTO3"
    then edition_proto3
    else if str_eq x "EDITION_2023"
    then edition_2023
    else if str_eq x "EDITION_2024"
    then edition_2024
    else if str_eq x "EDITION_1_TEST_ONLY"
    then edition_1_test_only
    else if str_eq x "EDITION_2_TEST_ONLY"
    then edition_2_test_only
    else if str_eq x "EDITION_99997_TEST_ONLY"
    then edition_99997_test_only
    else if str_eq x "EDITION_99998_TEST_ONLY"
    then edition_99998_test_only
    else if str_eq x "EDITION_99999_TEST_ONLY"
    then edition_99999_test_only
    else if str_eq x "EDITION_MAX"
    then edition_max
    else unrecognized
from_json _ = unrecognized

unfoldable pub to_json : Edition → String
to_json edition_unknown = "EDITION_UNKNOWN"
to_json edition_legacy = "EDITION_LEGACY"
to_json edition_proto2 = "EDITION_PROTO2"
to_json edition_proto3 = "EDITION_PROTO3"
to_json edition_2023 = "EDITION_2023"
to_json edition_2024 = "EDITION_2024"
to_json edition_1_test_only = "EDITION_1_TEST_ONLY"
to_json edition_2_test_only = "EDITION_2_TEST_ONLY"
to_json edition_99997_test_only = "EDITION_99997_TEST_ONLY"
to_json edition_99998_test_only = "EDITION_99998_TEST_ONLY"
to_json edition_99999_test_only = "EDITION_99999_TEST_ONLY"
to_json edition_max = "EDITION_MAX"
to_json unrecognized = "UNRECOGNIZED"

-- A field that holds a value of the enum, in JSON.
abbrev pub scalar : JsonScalar String
scalar = js_enum from_json to_json enum_value
