-- ===== src/Auth/User.antt =====
-- `User` of web/src/generated/auth.ts: the message and its generated functions.
pub mod RoundTrip
pub mod Json
use sample_grpc_service.Prelude.{ℕ, ◌/◌, String, Bool, false, Option, none}
use sample_grpc_service.Prelude.Outcome.{Outcome, ok, ◌>>=◌}
use sample_grpc_service.Wire.{
  Wire, Writer, Reader, Field, on_case, ◌▸◌, ◌◃◌, write_string, write_bool, decode_with,
  read_string, read_bool,
}
use sample_grpc_service.Js.{
  Js, obj, end, bool_field_either, string_field, string_field_either, set_string, set_bool,
}
use sample_grpc_service.Partial.{get_or}

pub record User : Type 0 where
  pub id : String
  pub email : String
  pub display_name : String
  pub username : String
  pub picture_url : String
  pub is_admin : Bool

-- What `fromPartial` takes: each property may be missing, `null` or `undefined`.
pub record UserPartial : Type 0 where
  pub id : Option String
  pub email : Option String
  pub display_name : Option String
  pub username : Option String
  pub picture_url : Option String
  pub is_admin : Option Bool

unfoldable pub create_base : User
create_base = record {
  id = "";
  email = "";
  display_name = "";
  username = "";
  picture_url = "";
  is_admin = false;
}

module _ (w : Wire) where
  unfoldable pub encode : User → Writer w.Byte → Writer w.Byte
  encode m x =
      x
      ▸ write_string w 10 m.id
      ▸ write_string w 18 m.email
      ▸ write_string w 26 m.display_name
      ▸ write_string w 34 m.username
      ▸ write_string w 42 m.picture_url
      ▸ write_bool w 48 m.is_admin

  -- The `switch` of `decode`.
  unfoldable pub field : Field w User
  field self tag m r =
      on_case 1 10 tag (read_string w r (λ v. record m { id = v }))
      ◃ on_case 2 18 tag (read_string w r (λ v. record m { email = v }))
      ◃ on_case 3 26 tag (read_string w r (λ v. record m { display_name = v }))
      ◃ on_case 4 34 tag (read_string w r (λ v. record m { username = v }))
      ◃ on_case 5 42 tag (read_string w r (λ v. record m { picture_url = v }))
      ◃ on_case 6 48 tag (read_bool w r (λ v. record m { is_admin = v }))
      ◃ none

  unfoldable pub decode : Reader w.Byte → Option ℕ → Outcome (User × Reader w.Byte)
  unfolding create_base
  decode r len = decode_with w field create_base r len

unfoldable pub from_json : Js → Outcome User
from_json o = do
  id' ← string_field "id" o
  email' ← string_field "email" o
  display_name' ← string_field_either "displayName" "display_name" o
  username' ← string_field "username" o
  picture_url' ← string_field_either "pictureUrl" "picture_url" o
  is_admin' ← bool_field_either "isAdmin" "is_admin" o
  ok (record {
    id = id';
    email = email';
    display_name = display_name';
    username = username';
    picture_url = picture_url';
    is_admin = is_admin';
  })

unfoldable pub to_json : User → Js
to_json m = obj (
    end
    ▸ set_string "id" m.id
    ▸ set_string "email" m.email
    ▸ set_string "displayName" m.display_name
    ▸ set_string "username" m.username
    ▸ set_string "pictureUrl" m.picture_url
    ▸ set_bool "isAdmin" m.is_admin)

unfoldable pub from_partial : UserPartial → User
unfolding create_base
from_partial o = record create_base {
  id = get_or "" o.id;
  email = get_or "" o.email;
  display_name = get_or "" o.display_name;
  username = get_or "" o.username;
  picture_url = get_or "" o.picture_url;
  is_admin = get_or false o.is_admin;
}

abbrev nothing : UserPartial
nothing = record {
  id = none;
  email = none;
  display_name = none;
  username = none;
  picture_url = none;
  is_admin = none;
}

-- `create(base)`; `base ?? {}`
unfoldable pub create : Option UserPartial → User
unfolding from_partial
create base = from_partial (get_or nothing base)
