-- ===== src/Auth/ListUsersResponse/Json.antt =====
-- The JSON and the partials of ListUsersResponse in
-- web/src/generated/auth.ts.
use sample_grpc_service.Prelude.{◌≡◌, true, some, map}
use sample_grpc_service.Prelude.Outcome.{ok}
use sample_grpc_service.Js.{is_set}
use sample_grpc_service.Js.Laws.{own_laws, read_laws, array_field-default, is_set-obj}
use sample_grpc_service.Partial.{map-inverse}
use sample_grpc_service.Auth.ListUsersResponse.{
  ListUsersResponse, ListUsersResponsePartial, create_base, from_json, to_json, from_partial,
}
use sample_grpc_service.Auth.User
use sample_grpc_service.Auth.User.{User, UserPartial}
use sample_grpc_service.Auth.User.Json as UserJson

-- `fromJSON` of what `toJSON` gives for a message of ListUsersResponse succeeds with that message.
pub list_users_response_from_json-to_json : (m : ListUsersResponse) → from_json (to_json m) ≡ ok m
unfolding from_json to_json
list_users_response_from_json-to_json m =
    simp (own_laws, read_laws)
      (rw (array_field-default User.to_json User.from_json m.users UserJson.user_from_json-to_json))

pub is_set-to_json : (m : ListUsersResponse) → is_set (to_json m) ≡ true
unfolding to_json
is_set-to_json m = is_set-obj _

-- All of a message, as an argument of `fromPartial`.
abbrev pub whole : ListUsersResponse → ListUsersResponsePartial
whole m = record { users = some (map UserJson.whole m.users) }

pub list_users_response_from_partial-whole : (m : ListUsersResponse) → from_partial (whole m) ≡ m
unfolding from_partial create_base
list_users_response_from_partial-whole m =
    rw (map-inverse UserJson.whole User.from_partial UserJson.user_from_partial-whole m.users)
