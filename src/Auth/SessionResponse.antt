-- ===== src/Auth/SessionResponse.antt =====
-- `SessionResponse` of web/src/generated/auth.ts: the message and its generated functions.
pub mod RoundTrip
pub mod Json
use sample_grpc_service.Prelude.{ℕ, ◌/◌, String, Option, none, some, map}
use sample_grpc_service.Prelude.Outcome.{Outcome, ok, ◌>>=◌}
use mathlib.Core.Option
use sample_grpc_service.Wire.{
  Wire, Writer, Reader, Field, on_case, ◌▸◌, ◌◃◌, write_string, write_message?, decode_with,
  read_string, read_message,
}
use sample_grpc_service.Js.{Js, obj, end, string_field, message_field, set_string, set_message?}
use sample_grpc_service.Partial.{get_or}
use sample_grpc_service.Auth.User
use sample_grpc_service.Auth.User.{User, UserPartial}

pub record SessionResponse : Type 0 where
  pub jwt : String
  pub user : Option User

-- What `fromPartial` takes: each property may be missing, `null` or `undefined`.
pub record SessionResponsePartial : Type 0 where
  pub jwt : Option String
  pub user : Option UserPartial

unfoldable pub create_base : SessionResponse
create_base = record { jwt = ""; user = none }

module _ (w : Wire) where
  unfoldable pub encode : SessionResponse → Writer w.Byte → Writer w.Byte
  encode m x = x ▸ write_string w 10 m.jwt ▸ write_message? w (User.encode w) 18 m.user

  -- The `switch` of `decode`.
  unfoldable pub field : Field w SessionResponse
  field self tag m r =
      on_case 1 10 tag (read_string w r (λ v. record m { jwt = v }))
      ◃ on_case 2 18 tag (read_message w (User.decode w) r (λ v. record m { user = some v }))
      ◃ none

  unfoldable pub decode : Reader w.Byte → Option ℕ → Outcome (SessionResponse × Reader w.Byte)
  unfolding create_base
  decode r len = decode_with w field create_base r len

unfoldable pub from_json : Js → Outcome SessionResponse
from_json o = do
  jwt' ← string_field "jwt" o
  user' ← message_field User.from_json "user" o
  ok (record { jwt = jwt'; user = user' })

unfoldable pub to_json : SessionResponse → Js
to_json m = obj (end ▸ set_string "jwt" m.jwt ▸ set_message? "user" User.to_json m.user)

unfoldable pub from_partial : SessionResponsePartial → SessionResponse
unfolding create_base
from_partial o = record create_base {
  jwt = get_or "" o.jwt;
  user = Option.map User.from_partial o.user;
}

abbrev nothing : SessionResponsePartial
nothing = record { jwt = none; user = none }

-- `create(base)`; `base ?? {}`
unfoldable pub create : Option SessionResponsePartial → SessionResponse
unfolding from_partial
create base = from_partial (get_or nothing base)
