-- ===== src/Auth/User/Json.antt =====
-- The JSON and the partials of User in
-- web/src/generated/auth.ts.
use sample_grpc_service.Prelude.{◌≡◌, refl, true, some}
use sample_grpc_service.Prelude.Outcome.{ok}
use sample_grpc_service.Js.{is_set}
use sample_grpc_service.Js.Laws.{own_laws, read_laws, is_set-obj}
use sample_grpc_service.Auth.User.{User, UserPartial, create_base, from_json, to_json, from_partial}

-- `fromJSON` of what `toJSON` gives for a message of User succeeds with that message.
pub user_from_json-to_json : (m : User) → from_json (to_json m) ≡ ok m
unfolding from_json to_json
user_from_json-to_json m = simp (own_laws, read_laws)

pub is_set-to_json : (m : User) → is_set (to_json m) ≡ true
unfolding to_json
is_set-to_json m = is_set-obj _

-- All of a message, as an argument of `fromPartial`.
abbrev pub whole : User → UserPartial
whole m = record {
  id = some m.id;
  email = some m.email;
  display_name = some m.display_name;
  username = some m.username;
  picture_url = some m.picture_url;
  is_admin = some m.is_admin;
}

pub user_from_partial-whole : (m : User) → from_partial (whole m) ≡ m
unfolding from_partial create_base
user_from_partial-whole m = refl
