-- ===== src/Auth/GoogleLoginRequest.antt =====
-- `GoogleLoginRequest` of web/src/generated/auth.ts: the message and its generated functions.
pub mod RoundTrip
pub mod Json
use sample_grpc_service.Prelude.{ℕ, ◌/◌, String, Option, none}
use sample_grpc_service.Prelude.Outcome.{Outcome, ok, ◌>>=◌}
use sample_grpc_service.Wire.{
  Wire, Writer, Reader, Field, on_case, ◌▸◌, ◌◃◌, write_string, decode_with, read_string,
}
use sample_grpc_service.Js.{Js, obj, end, string_field_either, set_string}
use sample_grpc_service.Partial.{get_or}

pub record GoogleLoginRequest : Type 0 where
  pub id_token : String

-- What `fromPartial` takes: each property may be missing, `null` or `undefined`.
pub record GoogleLoginRequestPartial : Type 0 where
  pub id_token : Option String

unfoldable pub create_base : GoogleLoginRequest
create_base = record { id_token = "" }

module _ (w : Wire) where
  unfoldable pub encode : GoogleLoginRequest → Writer w.Byte → Writer w.Byte
  encode m x = x ▸ write_string w 10 m.id_token

  -- The `switch` of `decode`.
  unfoldable pub field : Field w GoogleLoginRequest
  field self tag m r = on_case 1 10 tag (read_string w r (λ v. record m { id_token = v })) ◃ none

  unfoldable pub decode : Reader w.Byte → Option ℕ → Outcome (GoogleLoginRequest × Reader w.Byte)
  unfolding create_base
  decode r len = decode_with w field create_base r len

unfoldable pub from_json : Js → Outcome GoogleLoginRequest
from_json o = do
  id_token' ← string_field_either "idToken" "id_token" o
  ok (record { id_token = id_token' })

unfoldable pub to_json : GoogleLoginRequest → Js
to_json m = obj (end ▸ set_string "idToken" m.id_token)

unfoldable pub from_partial : GoogleLoginRequestPartial → GoogleLoginRequest
unfolding create_base
from_partial o = record create_base { id_token = get_or "" o.id_token }

abbrev nothing : GoogleLoginRequestPartial
nothing = record { id_token = none }

-- `create(base)`; `base ?? {}`
unfoldable pub create : Option GoogleLoginRequestPartial → GoogleLoginRequest
unfolding from_partial
create base = from_partial (get_or nothing base)
