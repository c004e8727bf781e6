-- ===== src/Auth/ListUsersRequest/Json.antt =====
-- The JSON and the partials of ListUsersRequest in
-- web/src/generated/auth.ts.
use sample_grpc_service.Prelude.{◌≡◌, refl}
use sample_grpc_service.Auth.ListUsersRequest.{ListUsersRequest, empty, from_json, to_json}

pub list_users_request_from_json-to_json : (m : ListUsersRequest) → from_json (to_json m) ≡ m
unfolding from_json
list_users_request_from_json-to_json empty = refl
