-- ===== src/Auth/ListUsersResponse.antt =====
-- `ListUsersResponse` of web/src/generated/auth.ts: the message and its generated functions.
pub mod RoundTrip
pub mod Json
use sample_grpc_service.Prelude.{ℕ, ◌/◌, Option, none, List, [], ◌∷◌, ◌++◌, map}
use sample_grpc_service.Prelude.Outcome.{Outcome, ok, ◌>>=◌}
use mathlib.Core.Option
use sample_grpc_service.Wire.{
  Wire, Writer, Reader, Field, on_case, ◌▸◌, ◌◃◌, write_messages, decode_with, read_message,
}
use sample_grpc_service.Js.{Js, obj, end, get_prop?, array_field, set_array}
use sample_grpc_service.Partial.{get_or}
use sample_grpc_service.Auth.User
use sample_grpc_service.Auth.User.{User, UserPartial}

pub record ListUsersResponse : Type 0 where
  pub users : List User

-- What `fromPartial` takes: each property may be missing, `null` or `undefined`.
pub record ListUsersResponsePartial : Type 0 where
  pub users : Option (List UserPartial)

unfoldable pub create_base : ListUsersResponse
create_base = record { users = [] }

module _ (w : Wire) where
  unfoldable pub encode : ListUsersResponse → Writer w.Byte → Writer w.Byte
  encode m x = x ▸ write_messages w (User.encode w) 10 m.users

  -- The `switch` of `decode`.
  unfoldable pub field : Field w ListUsersResponse
  field self tag m r =
      on_case 1 10 tag
        (read_message w (User.decode w) r (λ v. record m { users = m.users ++ (v ∷ []) }))
      ◃ none

  unfoldable pub decode : Reader w.Byte → Option ℕ → Outcome (ListUsersResponse × Reader w.Byte)
  unfolding create_base
  decode r len = decode_with w field create_base r len

unfoldable pub from_json : Js → Outcome ListUsersResponse
from_json o = do
  users' ← array_field User.from_json (get_prop? "users" o)
  ok (record { users = users' })

unfoldable pub to_json : ListUsersResponse → Js
to_json m = obj (end ▸ set_array "users" User.to_json m.users)

unfoldable pub from_partial : ListUsersResponsePartial → ListUsersResponse
unfolding create_base
from_partial o = record create_base {
  users = get_or [] (Option.map (map User.from_partial) o.users);
}

abbrev nothing : ListUsersResponsePartial
nothing = record { users = none }

-- `create(base)`; `base ?? {}`
unfoldable pub create : Option ListUsersResponsePartial → ListUsersResponse
unfolding from_partial
create base = from_partial (get_or nothing base)
