-- ===== src/Auth/GoogleLoginRequest/Json.antt =====
-- The JSON and the partials of GoogleLoginRequest in
-- web/src/generated/auth.ts.
use sample_grpc_service.Prelude.{◌≡◌, refl, true, some}
use sample_grpc_service.Prelude.Outcome.{ok}
use sample_grpc_service.Js.{is_set}
use sample_grpc_service.Js.Laws.{own_laws, read_laws, is_set-obj}
use sample_grpc_service.Auth.GoogleLoginRequest.{
  GoogleLoginRequest, GoogleLoginRequestPartial, create_base, from_json, to_json, from_partial,
}

pub google_login_request_from_json-to_json : (m : GoogleLoginRequest) → from_json (to_json m) ≡ ok m
unfolding from_json to_json
google_login_request_from_json-to_json m = simp (own_laws, read_laws)

pub is_set-to_json : (m : GoogleLoginRequest) → is_set (to_json m) ≡ true
unfolding to_json
is_set-to_json m = is_set-obj _

-- All of a message, as an argument of `fromPartial`.
abbrev pub whole : GoogleLoginRequest → GoogleLoginRequestPartial
whole m = record { id_token = some m.id_token }

pub google_login_request_from_partial-whole : (m : GoogleLoginRequest) → from_partial (whole m) ≡ m
unfolding from_partial create_base
google_login_request_from_partial-whole m = refl
