-- ===== src/Descriptor/DescriptorProtoReservedRange.antt =====
-- `DescriptorProto_ReservedRange` of web/src/generated/google/protobuf/descriptor.ts: the message
-- and its generated functions.
use sample_grpc_service.Prelude.{ℕ, ◌≡◌, refl, String, Option, none, some, ◌++◌}
use sample_grpc_service.Prelude.Outcome.{Outcome, ok, ◌>>=◌}
use sample_grpc_service.Partial.{get_or, Fills}
use sample_grpc_service.Wire.{Field, on_case, ◌▸◌, ◌◃◌, decode_with}
use sample_grpc_service.Wire.Loop.{IsTotal}
use sample_grpc_service.Wire.Cases.{no_case}
use sample_grpc_service.Wire.Runs.{Runs, ◌⨾◌, OnOption}
use sample_grpc_service.Wire.Codec.{Codec, codec_of}
use sample_grpc_service.Js.{Js, obj}
use sample_grpc_service.Js.Laws.{is_set-obj}
use sample_grpc_service.Js.Codec.{JsonCodec}
use sample_grpc_service.Proto.{Runtime, Bytes, In, Out, int32, write_or, read}
use sample_grpc_service.Proto.Laws.{RuntimeLaws, Passes}
use sample_grpc_service.Proto.Runs.{bytes_or}
use sample_grpc_service.Proto.Totals.{int32_case}
use sample_grpc_service.Proto.Kept.{Enums, numbered, named, Runs-int32}
use sample_grpc_service.Proto.Json.{no_props, js_integer, field_or, set_or}
use sample_grpc_service.Proto.Json.Agrees.{js_integer-kept}
use sample_grpc_service.Proto.Json.Laws.{proto_laws, value_or-default}

pub record DescriptorProtoReservedRange : Type 0 where
  pub start : Option String
  pub end : Option String

-- What `fromPartial` takes: each property may be missing, `null` or `undefined`.
abbrev pub DescriptorProtoReservedRangePartial : Type 0
DescriptorProtoReservedRangePartial = DescriptorProtoReservedRange

unfoldable pub create_base : DescriptorProtoReservedRange
create_base = record { start = some "0"; end = some "0" }

module _ (e : Runtime) where
  unfoldable pub encode : DescriptorProtoReservedRange → Out e → Out e
  encode m x = x ▸ write_or e (int32 e) 8 "0" m.start ▸ write_or e (int32 e) 16 "0" m.end

  -- The `switch` of `decode`.
  unfoldable pub field : Field e.wire DescriptorProtoReservedRange
  field self tag m r =
      on_case 1 8 tag (read e (int32 e) r (λ v. record m { start = some v }))
      ◃ on_case 2 16 tag (read e (int32 e) r (λ v. record m { end = some v }))
      ◃ none

  unfoldable pub decode : In e → Option ℕ → Outcome (DescriptorProtoReservedRange × In e)
  unfolding create_base
  decode r len = decode_with e.wire field create_base r len

  unfoldable pub from_json : Js → Outcome DescriptorProtoReservedRange
  from_json o = do
    start' ← field_or (js_integer e) "start" "0" o
    end' ← field_or (js_integer e) "end" "0" o
    ok (record { start = start'; end = end' })

  unfoldable pub to_json : DescriptorProtoReservedRange → Js
  to_json m =
      obj (
        no_props
        ▸ set_or (js_integer e) "start" "0" m.start
        ▸ set_or (js_integer e) "end" "0" m.end)

unfoldable pub from_partial : DescriptorProtoReservedRangePartial → DescriptorProtoReservedRange
unfolding create_base
from_partial o = record create_base {
  start = some (get_or "0" o.start);
  end = some (get_or "0" o.end);
}

abbrev nothing : DescriptorProtoReservedRangePartial
nothing = record { start = none; end = none }

-- `create(base)`; `base ?? {}`
unfoldable pub create : Option DescriptorProtoReservedRangePartial → DescriptorProtoReservedRange
unfolding from_partial
create base = from_partial (get_or nothing base)

-- The message with its missing values at their defaults.
unfoldable pub fill : DescriptorProtoReservedRange → DescriptorProtoReservedRange
fill m = record { start = some (get_or "0" m.start); end = some (get_or "0" m.end) }

module _ (e : Runtime) where
  -- The wire format: the fields in the order of their writes, defaults left out.
  unfoldable pub bytes : DescriptorProtoReservedRange → Bytes e
  bytes m = bytes_or e (int32 e) 8 "0" m.start ++ bytes_or e (int32 e) 16 "0" m.end

  -- The numbers of the message fit their fields.
  abbrev pub Fits : Enums → DescriptorProtoReservedRange → Type 0
  Fits enums m = OnOption (Passes e.is_int32) m.start × OnOption (Passes e.is_int32) m.end

  module _ (laws : RuntimeLaws e) where
    pub runs :
        (m : DescriptorProtoReservedRange)
        → Fits numbered m
        → Runs e.wire laws.wire (field e) (encode e m) (bytes m) create_base (fill m)
    unfolding encode bytes field create_base fill
    runs m fits =
        Runs-int32 e laws "0" 8 m.start (λ v k. record k { start = v }) refl fits.0
          (λ self k r. refl) refl
        ⨾ Runs-int32 e laws "0" 16 m.end (λ v k. record k { end = v }) refl fits.1
            (λ self k r. refl) refl

    pub IsTotal-field : IsTotal e.wire laws.wire (field e)
    unfolding field
    IsTotal-field self tag m r h =
        (int32_case e laws r 1 8 tag _ ◃ int32_case e laws r 2 16 tag _ ◃ no_case).ends

    pub decode-loop :
        (r : In e) (len : Option ℕ)
        → decode e r len ≡ decode_with e.wire (field e) create_base r len
    unfolding decode
    decode-loop r len = refl

    abbrev pub codec : Codec e.wire DescriptorProtoReservedRange
    codec =
        codec_of e.wire laws.wire (encode e) (decode e) (field e) create_base bytes fill
          (Fits numbered) decode-loop runs IsTotal-field

pub json_codec :
    (e : Runtime) → RuntimeLaws e → JsonCodec (to_json e) (from_json e) fill (Fits e named)
unfolding from_json to_json fill
json_codec e laws = record {
  from-to = λ m fits. simp (
    proto_laws,
    value_or-default (js_integer-kept e laws laws.round_int32 "0") m.start fits.0,
    value_or-default (js_integer-kept e laws laws.round_int32 "0") m.end fits.1,
  );
  shown = λ m. is_set-obj _;
}

-- All of a message, as an argument of `fromPartial`.
abbrev pub whole : DescriptorProtoReservedRange → DescriptorProtoReservedRangePartial
whole m = m

pub fills : Fills whole from_partial fill
unfolding from_partial create_base fill
fills = record { fills = λ m. refl }
