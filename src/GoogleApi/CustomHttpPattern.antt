-- ===== src/GoogleApi/CustomHttpPattern.antt =====
-- `CustomHttpPattern` of web/src/generated/google/api/http.ts: the message and its generated functions.
pub mod RoundTrip
pub mod Json
use sample_grpc_service.Prelude.{ℕ, ◌/◌, String, Option, none}
use sample_grpc_service.Prelude.Outcome.{Outcome, ok, ◌>>=◌}
use sample_grpc_service.Wire.{
  Wire, Writer, Reader, Field, on_case, ◌▸◌, ◌◃◌, write_string, decode_with, read_string,
}
use sample_grpc_service.Js.{Js, obj, end, string_field, set_string}
use sample_grpc_service.Partial.{get_or}

pub record CustomHttpPattern : Type 0 where
  pub kind : String
  pub path : String

-- What `fromPartial` takes: each property may be missing, `null` or `undefined`.
pub record CustomHttpPatternPartial : Type 0 where
  pub kind : Option String
  pub path : Option String

unfoldable pub create_base : CustomHttpPattern
create_base = record { kind = ""; path = "" }

module _ (w : Wire) where
  unfoldable pub encode : CustomHttpPattern → Writer w.Byte → Writer w.Byte
  encode m x = x ▸ write_string w 10 m.kind ▸ write_string w 18 m.path

  -- The `switch` of `decode`.
  unfoldable pub field : Field w CustomHttpPattern
  field self tag m r =
      on_case 1 10 tag (read_string w r (λ v. record m { kind = v }))
      ◃ on_case 2 18 tag (read_string w r (λ v. record m { path = v }))
      ◃ none

  unfoldable pub decode : Reader w.Byte → Option ℕ → Outcome (CustomHttpPattern × Reader w.Byte)
  unfolding create_base
  decode r len = decode_with w field create_base r len

unfoldable pub from_json : Js → Outcome CustomHttpPattern
from_json o = do
  kind' ← string_field "kind" o
  path' ← string_field "path" o
  ok (record { kind = kind'; path = path' })

unfoldable pub to_json : CustomHttpPattern → Js
to_json m = obj (end ▸ set_string "kind" m.kind ▸ set_string "path" m.path)

unfoldable pub from_partial : CustomHttpPatternPartial → CustomHttpPattern
unfolding create_base
from_partial o = record create_base { kind = get_or "" o.kind; path = get_or "" o.path }

abbrev nothing : CustomHttpPatternPartial
nothing = record { kind = none; path = none }

-- `create(base)`; `base ?? {}`
unfoldable pub create : Option CustomHttpPatternPartial → CustomHttpPattern
unfolding from_partial
create base = from_partial (get_or nothing base)
