-- ===== src/GoogleApi/CustomHttpPattern/Json.antt =====
-- The JSON and the partials of CustomHttpPattern in
-- web/src/generated/google/api/http.ts.
use sample_grpc_service.Prelude.{◌≡◌, refl, true, some}
use sample_grpc_service.Prelude.Outcome.{ok}
use sample_grpc_service.Js.{is_set}
use sample_grpc_service.Js.Laws.{own_laws, read_laws, is_set-obj}
use sample_grpc_service.GoogleApi.CustomHttpPattern.{
  CustomHttpPattern, CustomHttpPatternPartial, create_base, from_json, to_json, from_partial,
}

pub custom_http_pattern_from_json-to_json : (m : CustomHttpPattern) → from_json (to_json m) ≡ ok m
unfolding from_json to_json
custom_http_pattern_from_json-to_json m = simp (own_laws, read_laws)

pub is_set-to_json : (m : CustomHttpPattern) → is_set (to_json m) ≡ true
unfolding to_json
is_set-to_json m = is_set-obj _

-- All of a message, as an argument of `fromPartial`.
abbrev pub whole : CustomHttpPattern → CustomHttpPatternPartial
whole m = record { kind = some m.kind; path = some m.path }

pub custom_http_pattern_from_partial-whole : (m : CustomHttpPattern) → from_partial (whole m) ≡ m
unfolding from_partial create_base
custom_http_pattern_from_partial-whole m = refl
