-- ===== src/Greeter/EchoRequest/Json.antt =====
-- The JSON and the partials of EchoRequest in
-- web/src/generated/greeter.ts.
use sample_grpc_service.Prelude.{◌≡◌, refl, true, some}
use sample_grpc_service.Prelude.Outcome.{ok}
use sample_grpc_service.Js.{is_set}
use sample_grpc_service.Js.Laws.{own_laws, read_laws, is_set-obj}
use sample_grpc_service.Greeter.EchoRequest.{
  EchoRequest, EchoRequestPartial, create_base, from_json, to_json, from_partial,
}

pub echo_request_from_json-to_json : (m : EchoRequest) → from_json (to_json m) ≡ ok m
unfolding from_json to_json
echo_request_from_json-to_json m = simp (own_laws, read_laws)

pub is_set-to_json : (m : EchoRequest) → is_set (to_json m) ≡ true
unfolding to_json
is_set-to_json m = is_set-obj _

-- All of a message, as an argument of `fromPartial`.
abbrev pub whole : EchoRequest → EchoRequestPartial
whole m = record { message = some m.message }

pub echo_request_from_partial-whole : (m : EchoRequest) → from_partial (whole m) ≡ m
unfolding from_partial create_base
echo_request_from_partial-whole m = refl
