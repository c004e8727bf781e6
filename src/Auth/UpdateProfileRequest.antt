-- ===== src/Auth/UpdateProfileRequest.antt =====
-- `UpdateProfileRequest` of web/src/generated/auth.ts: the message and its generated functions.
pub mod RoundTrip
pub mod Json
use sample_grpc_service.Prelude.{ℕ, ◌/◌, String, Option, none}
use sample_grpc_service.Prelude.Outcome.{Outcome, ok, ◌>>=◌}
use sample_grpc_service.Wire.{
  Wire, Writer, Reader, Field, on_case, ◌▸◌, ◌◃◌, write_string, decode_with, read_string,
}
use sample_grpc_service.Js.{Js, obj, end, string_field, set_string}
use sample_grpc_service.Partial.{get_or}

pub record UpdateProfileRequest : Type 0 where
  pub username : String

-- What `fromPartial` takes: each property may be missing, `null` or `undefined`.
pub record UpdateProfileRequestPartial : Type 0 where
  pub username : Option String

unfoldable pub create_base : UpdateProfileRequest
create_base = record { username = "" }

module _ (w : Wire) where
  unfoldable pub encode : UpdateProfileRequest → Writer w.Byte → Writer w.Byte
  encode m x = x ▸ write_string w 10 m.username

  -- The `switch` of `decode`.
  unfoldable pub field : Field w UpdateProfileRequest
  field self tag m r = on_case 1 10 tag (read_string w r (λ v. record m { username = v })) ◃ none

  unfoldable pub decode : Reader w.Byte → Option ℕ → Outcome (UpdateProfileRequest × Reader w.Byte)
  unfolding create_base
  decode r len = decode_with w field create_base r len

unfoldable pub from_json : Js → Outcome UpdateProfileRequest
from_json o = do username' ← string_field "username" o; ok (record { username = username' })

unfoldable pub to_json : UpdateProfileRequest → Js
to_json m = obj (end ▸ set_string "username" m.username)

unfoldable pub from_partial : UpdateProfileRequestPartial → UpdateProfileRequest
unfolding create_base
from_partial o = record create_base { username = get_or "" o.username }

abbrev nothing : UpdateProfileRequestPartial
nothing = record { username = none }

-- `create(base)`; `base ?? {}`
unfoldable pub create : Option UpdateProfileRequestPartial → UpdateProfileRequest
unfolding from_partial
create base = from_partial (get_or nothing base)
