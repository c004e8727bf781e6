-- ===== src/Tests/Codecs.antt =====
-- The messages of web/src/generated at concrete values: the theorems on their codecs.
use sample_grpc_service.Prelude.{◌^◌, ◌<◌, ◌≡◌, String, true, some, none, [], ◌∷◌, arith, length}
use sample_grpc_service.Prelude.Outcome.{ok}
use sample_grpc_service.Wire.{Reader, new_writer, new_reader}
use sample_grpc_service.Wire.Carries.{at}
use sample_grpc_service.Wire.Loop.{Ends}
use sample_grpc_service.Wire.Writes.{
  field_string, field_string?, field_bool, field_message, field_message?,
}
use sample_grpc_service.Tests.SampleWire.{num, sample_wire}
use sample_grpc_service.Tests.SampleWire.Laws.{sample_laws}
use sample_grpc_service.Messages.{message_fns, session_response, http}
use sample_grpc_service.Messages.RoundTrip.{bytes, message_decode-encode, message_decode-Ends}
use sample_grpc_service.Messages.Json.{whole, message_from_json-to_json, message_from_partial-whole}
use sample_grpc_service.GoogleApi.Http.{Http}
use sample_grpc_service.Auth.User.{User}
use sample_grpc_service.Auth.User.RoundTrip as UserRoundTrip
use sample_grpc_service.Auth.SessionResponse.{SessionResponse}
use sample_grpc_service.Auth.SessionResponse.RoundTrip as SessionResponseRoundTrip
use sample_grpc_service.GoogleApi.HttpRule
use sample_grpc_service.GoogleApi.HttpRule.{HttpRule, rule, none_left, first}
use sample_grpc_service.GoogleApi.HttpRule.RoundTrip as HttpRuleRoundTrip
use sample_grpc_service.GoogleApi.HttpRule.Json as HttpRuleJson
use sample_grpc_service.GoogleApi.HttpRule.Fields.{Plain}
use sample_grpc_service.GoogleApi.HttpRule.PlainTrip.{plain_bytes}
use sample_grpc_service.GoogleApi.CustomHttpPattern.RoundTrip as PatternRoundTrip

abbrev ann : User
ann = record {
  id = "u-1";
  email = "ann@example.com";
  display_name = "Ann";
  username = "";
  picture_url = "";
  is_admin = true;
}

abbrev ann_session : SessionResponse
ann_session = record { jwt = "a.b.c"; user = some ann }

abbrev plain_rule : String → Plain
plain_rule path = record {
  selector = "";
  get = some path;
  put = none;
  post = none;
  delete = none;
  patch = none;
  custom = some (record { kind = "HEAD"; path = "" });
  body = "*";
  response_body = "";
}

abbrev bound_rule : HttpRule
bound_rule =
    rule (plain_rule "/v1")
      (first (rule (plain_rule "") none_left) (first (rule (plain_rule "/v2") none_left) none_left))

ann_session_fits : length (SessionResponseRoundTrip.bytes sample_wire ann_session) < 2 ^ 32
unfolding SessionResponseRoundTrip.bytes UserRoundTrip.bytes field_message? field_string field_bool
    field_message sample_wire
ann_session_fits = omega arith

bound_rule_fits : length (HttpRuleRoundTrip.bytes sample_wire bound_rule) < 2 ^ 32
unfolding HttpRuleRoundTrip.bytes plain_bytes PatternRoundTrip.bytes field_string field_string?
    field_message? field_message sample_wire
bound_rule_fits = omega arith

http_rule_decode-encode_example :
    HttpRule.decode sample_wire
      (new_reader (sample_wire.finish (HttpRule.encode sample_wire bound_rule new_writer)))
      none
    ≡ ok (bound_rule, at (length (HttpRuleRoundTrip.bytes sample_wire bound_rule)) [])
http_rule_decode-encode_example =
    HttpRuleRoundTrip.http_rule_decode-encode sample_wire sample_laws bound_rule bound_rule_fits

http_rule_from_json-to_json_example :
    HttpRule.from_json (HttpRule.to_json bound_rule) ≡ ok bound_rule
http_rule_from_json-to_json_example = HttpRuleJson.http_rule_from_json-to_json bound_rule

http_rule_from_partial-whole_example :
    HttpRule.from_partial (HttpRuleJson.whole bound_rule) ≡ bound_rule
http_rule_from_partial-whole_example = HttpRuleJson.http_rule_from_partial-whole bound_rule

-- A message of another kind, an end of group in the middle.
abbrev some_symbols : Reader sample_wire.Byte
unfolding sample_wire
some_symbols = new_reader (num 90 ∷ num 2 ∷ num 8 ∷ num 7 ∷ num 12 ∷ [])

http_rule_decode-Ends_example :
    Ends (length some_symbols.rest) (HttpRule.decode sample_wire some_symbols none)
http_rule_decode-Ends_example =
    HttpRuleRoundTrip.http_rule_decode-Ends sample_wire sample_laws some_symbols none

message_decode-encode_example :
    (message_fns sample_wire session_response).decode
      (new_reader (
        sample_wire.finish
          ((message_fns sample_wire session_response).encode ann_session new_writer)))
      none
    ≡ ok (ann_session, at (length (bytes sample_wire session_response ann_session)) [])
message_decode-encode_example =
    message_decode-encode sample_wire sample_laws session_response ann_session ann_session_fits

message_decode-Ends_example :
    Ends (length some_symbols.rest) ((message_fns sample_wire http).decode some_symbols none)
message_decode-Ends_example = message_decode-Ends sample_wire sample_laws http some_symbols none

message_from_json-to_json_example :
    (message_fns sample_wire session_response).from_json
      ((message_fns sample_wire session_response).to_json ann_session)
    ≡ ok ann_session
message_from_json-to_json_example =
    message_from_json-to_json sample_wire session_response ann_session

abbrev one_rule : Http
one_rule = record { rules = bound_rule ∷ []; fully_decode_reserved_expansion = true }

message_from_partial-whole_example :
    (message_fns sample_wire http).from_partial (whole http one_rule) ≡ one_rule
message_from_partial-whole_example = message_from_partial-whole sample_wire http one_rule
