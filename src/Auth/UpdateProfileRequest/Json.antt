-- ===== src/Auth/UpdateProfileRequest/Json.antt =====
-- The JSON and the partials of UpdateProfileRequest in
-- web/src/generated/auth.ts.
use sample_grpc_service.Prelude.{◌≡◌, refl, true, some}
use sample_grpc_service.Prelude.Outcome.{ok}
use sample_grpc_service.Js.{is_set}
use sample_grpc_service.Js.Laws.{own_laws, read_laws, is_set-obj}
use sample_grpc_service.Auth.UpdateProfileRequest.{
  UpdateProfileRequest, UpdateProfileRequestPartial, create_base, from_json, to_json, from_partial,
}

pub update_profile_request_from_json-to_json :
    (m : UpdateProfileRequest) → from_json (to_json m) ≡ ok m
unfolding from_json to_json
update_profile_request_from_json-to_json m = simp (own_laws, read_laws)

pub is_set-to_json : (m : UpdateProfileRequest) → is_set (to_json m) ≡ true
unfolding to_json
is_set-to_json m = is_set-obj _

-- All of a message, as an argument of `fromPartial`.
abbrev pub whole : UpdateProfileRequest → UpdateProfileRequestPartial
whole m = record { username = some m.username }

pub update_profile_request_from_partial-whole :
    (m : UpdateProfileRequest) → from_partial (whole m) ≡ m
unfolding from_partial create_base
update_profile_request_from_partial-whole m = refl
