-- ===== src/Auth/ListUsersRequest.antt =====
-- `ListUsersRequest` of web/src/generated/auth.ts: the message and its generated functions.
pub mod RoundTrip
pub mod Json
use sample_grpc_service.Prelude.{ℕ, ◌/◌, Option, none}
use sample_grpc_service.Prelude.Outcome.{Outcome}
use sample_grpc_service.Wire.{Wire, Writer, Reader, Field, decode_with}
use sample_grpc_service.Js.{Js, obj, end}

pub data ListUsersRequest : Type 0 where
  empty : ListUsersRequest

unfoldable pub create_base : ListUsersRequest
create_base = empty

module _ (w : Wire) where
  unfoldable pub encode : ListUsersRequest → Writer w.Byte → Writer w.Byte
  encode m x = x

  -- The `switch` of `decode`.
  unfoldable pub field : Field w ListUsersRequest
  field self tag m r = none

  unfoldable pub decode : Reader w.Byte → Option ℕ → Outcome (ListUsersRequest × Reader w.Byte)
  unfolding create_base
  decode r len = decode_with w field create_base r len

unfoldable pub from_json : Js → ListUsersRequest
from_json o = empty

unfoldable pub to_json : ListUsersRequest → Js
to_json m = obj (end)

-- `fromPartial` and `create` ignore what they are given.
unfoldable pub from_partial : ListUsersRequest
unfolding create_base
from_partial = create_base
