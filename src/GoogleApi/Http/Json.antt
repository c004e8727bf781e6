-- ===== src/GoogleApi/Http/Json.antt =====
-- The JSON and the partials of Http in
-- web/src/generated/google/api/http.ts.
use sample_grpc_service.Prelude.{◌≡◌, true, some, map}
use sample_grpc_service.Prelude.Outcome.{ok}
use sample_grpc_service.Js.{is_set}
use sample_grpc_service.Js.Laws.{own_laws, read_laws, array_field-default, is_set-obj}
use sample_grpc_service.Partial.{map-inverse}
use sample_grpc_service.GoogleApi.Http.{
  Http, HttpPartial, create_base, from_json, to_json, from_partial,
}
use sample_grpc_service.GoogleApi.HttpRule
use sample_grpc_service.GoogleApi.HttpRule.{HttpRule, HttpRulePartial}
use sample_grpc_service.GoogleApi.HttpRule.Json as HttpRuleJson

-- `fromJSON` of what `toJSON` gives for a message of Http succeeds with that message.
pub http_from_json-to_json : (m : Http) → from_json (to_json m) ≡ ok m
unfolding from_json to_json
http_from_json-to_json m =
    simp (own_laws, read_laws)
      (rw (
        array_field-default HttpRule.to_json HttpRule.from_json m.rules
          HttpRuleJson.http_rule_from_json-to_json))

pub is_set-to_json : (m : Http) → is_set (to_json m) ≡ true
unfolding to_json
is_set-to_json m = is_set-obj _

-- All of a message, as an argument of `fromPartial`.
abbrev pub whole : Http → HttpPartial
whole m = record {
  rules = some (map HttpRuleJson.whole m.rules);
  fully_decode_reserved_expansion = some m.fully_decode_reserved_expansion;
}

pub http_from_partial-whole : (m : Http) → from_partial (whole m) ≡ m
unfolding from_partial create_base
http_from_partial-whole m = rw (
    map-inverse HttpRuleJson.whole HttpRule.from_partial HttpRuleJson.http_rule_from_partial-whole
      m.rules)
