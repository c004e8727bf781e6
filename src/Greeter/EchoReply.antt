-- ===== src/Greeter/EchoReply.antt =====
-- `EchoReply` of web/src/generated/greeter.ts: the message and its generated functions.
pub mod RoundTrip
pub mod Json
use sample_grpc_service.Prelude.{ℕ, ◌/◌, String, Option, none}
use sample_grpc_service.Prelude.Outcome.{Outcome, ok, ◌>>=◌}
use sample_grpc_service.Wire.{
  Wire, Writer, Reader, Field, on_case, ◌▸◌, ◌◃◌, write_string, decode_with, read_string,
}
use sample_grpc_service.Js.{Js, obj, end, string_field, set_string}
use sample_grpc_service.Partial.{get_or}

pub record EchoReply : Type 0 where
  pub message : String

-- What `fromPartial` takes: each property may be missing, `null` or `undefined`.
pub record EchoReplyPartial : Type 0 where
  pub message : Option String

unfoldable pub create_base : EchoReply
create_base = record { message = "" }

module _ (w : Wire) where
  unfoldable pub encode : EchoReply → Writer w.Byte → Writer w.Byte
  encode m x = x ▸ write_string w 10 m.message

  -- The `switch` of `decode`.
  unfoldable pub field : Field w EchoReply
  field self tag m r = on_case 1 10 tag (read_string w r (λ v. record m { message = v })) ◃ none

  unfoldable pub decode : Reader w.Byte → Option ℕ → Outcome (EchoReply × Reader w.Byte)
  unfolding create_base
  decode r len = decode_with w field create_base r len

unfoldable pub from_json : Js → Outcome EchoReply
from_json o = do message' ← string_field "message" o; ok (record { message = message' })

unfoldable pub to_json : EchoReply → Js
to_json m = obj (end ▸ set_string "message" m.message)

unfoldable pub from_partial : EchoReplyPartial → EchoReply
unfolding create_base
from_partial o = record create_base { message = get_or "" o.message }

abbrev nothing : EchoReplyPartial
nothing = record { message = none }

-- `create(base)`; `base ?? {}`
unfoldable pub create : Option EchoReplyPartial → EchoReply
unfolding from_partial
create base = from_partial (get_or nothing base)
