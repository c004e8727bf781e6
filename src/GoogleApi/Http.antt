-- ===== src/GoogleApi/Http.antt =====
-- `Http` of web/src/generated/google/api/http.ts: the message and its generated functions.
pub mod RoundTrip
pub mod Json
use sample_grpc_service.Prelude.{ℕ, ◌/◌, Bool, false, Option, none, List, [], ◌∷◌, ◌++◌, map}
use sample_grpc_service.Prelude.Outcome.{Outcome, ok, ◌>>=◌}
use mathlib.Core.Option
use sample_grpc_service.Wire.{
  Wire, Writer, Reader, Field, on_case, ◌▸◌, ◌◃◌, write_bool, write_messages, decode_with,
  read_bool, read_message,
}
use sample_grpc_service.Js.{
  Js, obj, end, bool_field_either, get_prop?, array_field, set_bool, set_array,
}
use sample_grpc_service.Partial.{get_or}
use sample_grpc_service.GoogleApi.HttpRule
use sample_grpc_service.GoogleApi.HttpRule.{HttpRule, HttpRulePartial}

pub record Http : Type 0 where
  pub rules : List HttpRule
  pub fully_decode_reserved_expansion : Bool

-- What `fromPartial` takes: each property may be missing, `null` or `undefined`.
pub record HttpPartial : Type 0 where
  pub rules : Option (List HttpRulePartial)
  pub fully_decode_reserved_expansion : Option Bool

unfoldable pub create_base : Http
create_base = record { rules = []; fully_decode_reserved_expansion = false }

module _ (w : Wire) where
  unfoldable pub encode : Http → Writer w.Byte → Writer w.Byte
  encode m x =
      x
      ▸ write_messages w (HttpRule.encode w) 10 m.rules
      ▸ write_bool w 16 m.fully_decode_reserved_expansion

  -- The `switch` of `decode`.
  unfoldable pub field : Field w Http
  field self tag m r =
      on_case 1 10 tag
        (read_message w (HttpRule.decode w) r (λ v. record m { rules = m.rules ++ (v ∷ []) }))
      ◃ on_case 2 16 tag (read_bool w r (λ v. record m { fully_decode_reserved_expansion = v }))
      ◃ none

  unfoldable pub decode : Reader w.Byte → Option ℕ → Outcome (Http × Reader w.Byte)
  unfolding create_base
  decode r len = decode_with w field create_base r len

unfoldable pub from_json : Js → Outcome Http
from_json o = do
  rules' ← array_field HttpRule.from_json (get_prop? "rules" o)
  fully_decode_reserved_expansion' ←
      bool_field_either "fullyDecodeReservedExpansion" "fully_decode_reserved_expansion" o
  ok (record { rules = rules'; fully_decode_reserved_expansion = fully_decode_reserved_expansion' })

unfoldable pub to_json : Http → Js
to_json m = obj (
    end
    ▸ set_array "rules" HttpRule.to_json m.rules
    ▸ set_bool "fullyDecodeReservedExpansion" m.fully_decode_reserved_expansion)

unfoldable pub from_partial : HttpPartial → Http
unfolding create_base
from_partial o = record create_base {
  rules = get_or [] (Option.map (map HttpRule.from_partial) o.rules);
  fully_decode_reserved_expansion = get_or false o.fully_decode_reserved_expansion;
}

abbrev nothing : HttpPartial
nothing = record { rules = none; fully_decode_reserved_expansion = none }

-- `create(base)`; `base ?? {}`
unfoldable pub create : Option HttpPartial → Http
unfolding from_partial
create base = from_partial (get_or nothing base)
