-- ===== src/Auth/GetCurrentUserRequest/Json.antt =====
-- The JSON and the partials of GetCurrentUserRequest in
-- web/src/generated/auth.ts.
use sample_grpc_service.Prelude.{◌≡◌, refl}
use sample_grpc_service.Auth.GetCurrentUserRequest.{
  GetCurrentUserRequest, empty, from_json, to_json,
}

pub get_current_user_request_from_json-to_json :
    (m : GetCurrentUserRequest) → from_json (to_json m) ≡ m
unfolding from_json
get_current_user_request_from_json-to_json empty = refl
