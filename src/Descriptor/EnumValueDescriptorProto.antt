-- ===== src/Descriptor/EnumValueDescriptorProto.antt =====
-- `EnumValueDescriptorProto` of web/src/generated/google/protobuf/descriptor.ts: the message and
-- its generated functions.
use sample_grpc_service.Prelude.{ℕ, ◌≡◌, refl, String, Option, none, some, ◌++◌}
use sample_grpc_service.Prelude.Outcome.{Outcome, ok, ◌>>=◌}
use sample_grpc_service.Partial.{get_or, Fills, Option-map-fill}
use sample_grpc_service.Wire.{Field, on_case, ◌▸◌, ◌◃◌, write_message?, decode_with, read_message}
use sample_grpc_service.Wire.Loop.{IsTotal}
use sample_grpc_service.Wire.Cases.{no_case, some_case}
use sample_grpc_service.Wire.Writes.{field_message?}
use sample_grpc_service.Wire.Runs.{Runs, ◌⨾◌, OnOption}
use sample_grpc_service.Wire.Codec.{Codec, codec_of, Runs-message?, message-Ends}
use sample_grpc_service.Js.{Js, obj, set_message?, message_field}
use sample_grpc_service.Js.Laws.{is_set-obj}
use sample_grpc_service.Js.Codec.{JsonCodec, message-fill}
use sample_grpc_service.Proto.{Runtime, Bytes, In, Out, text, int32, write_or, read}
use sample_grpc_service.Proto.Laws.{RuntimeLaws, Passes}
use sample_grpc_service.Proto.Runs.{bytes_or}
use sample_grpc_service.Proto.Totals.{text_case, int32_case}
use sample_grpc_service.Proto.Kept.{Enums, numbered, named, Runs-text, Runs-int32}
use sample_grpc_service.Proto.Json.{no_props, js_text, js_integer, field_or, set_or}
use sample_grpc_service.Proto.Json.Agrees.{js_integer-kept}
use sample_grpc_service.Proto.Json.Laws.{proto_laws, value_or-default}
use sample_grpc_service.Descriptor.EnumValueOptions
use sample_grpc_service.Descriptor.EnumValueOptions.{EnumValueOptions, EnumValueOptionsPartial}
use mathlib.Core.Option

pub record EnumValueDescriptorProto : Type 0 where
  pub name : Option String
  pub number : Option String
  pub options : Option EnumValueOptions

-- What `fromPartial` takes: each property may be missing, `null` or `undefined`.
pub record EnumValueDescriptorProtoPartial : Type 0 where
  pub name : Option String
  pub number : Option String
  pub options : Option EnumValueOptionsPartial

unfoldable pub create_base : EnumValueDescriptorProto
create_base = record { name = some ""; number = some "0"; options = none }

module _ (e : Runtime) where
  unfoldable pub encode : EnumValueDescriptorProto → Out e → Out e
  encode m x =
      x
      ▸ write_or e (text e) 10 "" m.name
      ▸ write_or e (int32 e) 16 "0" m.number
      ▸ write_message? e.wire (EnumValueOptions.encode e) 26 m.options

  -- The `switch` of `decode`.
  unfoldable pub field : Field e.wire EnumValueDescriptorProto
  field self tag m r =
      on_case 1 10 tag (read e (text e) r (λ v. record m { name = some v }))
      ◃ on_case 2 16 tag (read e (int32 e) r (λ v. record m { number = some v }))
      ◃ on_case 3 26 tag
          (read_message e.wire (EnumValueOptions.decode e) r (λ v. record m { options = some v }))
      ◃ none

  unfoldable pub decode : In e → Option ℕ → Outcome (EnumValueDescriptorProto × In e)
  unfolding create_base
  decode r len = decode_with e.wire field create_base r len

  unfoldable pub from_json : Js → Outcome EnumValueDescriptorProto
  from_json o = do
    name' ← field_or js_text "name" "" o
    number' ← field_or (js_integer e) "number" "0" o
    options' ← message_field (EnumValueOptions.from_json e) "options" o
    ok (record { name = name'; number = number'; options = options' })

  unfoldable pub to_json : EnumValueDescriptorProto → Js
  to_json m = obj (
      no_props
      ▸ set_or js_text "name" "" m.name
      ▸ set_or (js_integer e) "number" "0" m.number
      ▸ set_message? "options" (EnumValueOptions.to_json e) m.options)

unfoldable pub from_partial : EnumValueDescriptorProtoPartial → EnumValueDescriptorProto
unfolding create_base
from_partial o = record create_base {
  name = some (get_or "" o.name);
  number = some (get_or "0" o.number);
  options = Option.map EnumValueOptions.from_partial o.options;
}

abbrev nothing : EnumValueDescriptorProtoPartial
nothing = record { name = none; number = none; options = none }

-- `create(base)`; `base ?? {}`
unfoldable pub create : Option EnumValueDescriptorProtoPartial → EnumValueDescriptorProto
unfolding from_partial
create base = from_partial (get_or nothing base)

-- The message with its missing values at their defaults.
unfoldable pub fill : EnumValueDescriptorProto → EnumValueDescriptorProto
fill m = record {
  name = some (get_or "" m.name);
  number = some (get_or "0" m.number);
  options = Option.map EnumValueOptions.fill m.options;
}

module _ (e : Runtime) where
  -- The wire format: the fields in the order of their writes, defaults left out.
  unfoldable pub bytes : EnumValueDescriptorProto → Bytes e
  bytes m =
      bytes_or e (text e) 10 "" m.name
      ++ bytes_or e (int32 e) 16 "0" m.number
      ++ field_message? e.wire (EnumValueOptions.bytes e) 26 m.options

  -- The numbers of the message fit their fields.
  abbrev pub Fits : Enums → EnumValueDescriptorProto → Type 0
  Fits enums m =
      OnOption (Passes e.is_int32) m.number × OnOption (EnumValueOptions.Fits e enums) m.options

  module _ (laws : RuntimeLaws e) where
    pub runs :
        (m : EnumValueDescriptorProto)
        → Fits numbered m
        → Runs e.wire laws.wire (field e) (encode e m) (bytes m) create_base (fill m)
    unfolding encode bytes field create_base fill
    runs m fits =
        Runs-text e laws "" 10 m.name (λ v k. record k { name = v }) refl (λ self k r. refl) refl
        ⨾ Runs-int32 e laws "0" 16 m.number (λ v k. record k { number = v }) refl fits.0
            (λ self k r. refl) refl
        ⨾ Runs-message? e.wire laws.wire (EnumValueOptions.codec e laws) 26 m.options
            (λ v k. record k { options = v }) refl fits.1 (λ self k r. refl) refl

    pub IsTotal-field : IsTotal e.wire laws.wire (field e)
    unfolding field
    IsTotal-field self tag m r h =
        (text_case e laws r 1 10 tag _
          ◃ int32_case e laws r 2 16 tag _
          ◃ some_case r 3 26 tag _
              (message-Ends e.wire laws.wire (EnumValueOptions.codec e laws) r _)
          ◃ no_case).ends

    pub decode-loop :
        (r : In e) (len : Option ℕ)
        → decode e r len ≡ decode_with e.wire (field e) create_base r len
    unfolding decode
    decode-loop r len = refl

    abbrev pub codec : Codec e.wire EnumValueDescriptorProto
    codec =
        codec_of e.wire laws.wire (encode e) (decode e) (field e) create_base bytes fill
          (Fits numbered) decode-loop runs IsTotal-field

pub json_codec :
    (e : Runtime) → RuntimeLaws e → JsonCodec (to_json e) (from_json e) fill (Fits e named)
unfolding from_json to_json fill
json_codec e laws = record {
  from-to = λ m fits. simp (
    proto_laws,
    value_or-default (js_integer-kept e laws laws.round_int32 "0") m.number fits.0,
    message-fill (EnumValueOptions.json_codec e laws) m.options fits.1,
  );
  shown = λ m. is_set-obj _;
}

-- All of a message, as an argument of `fromPartial`.
abbrev pub whole : EnumValueDescriptorProto → EnumValueDescriptorProtoPartial
whole m = record {
  name = m.name;
  number = m.number;
  options = Option.map EnumValueOptions.whole m.options;
}

pub fills : Fills whole from_partial fill
unfolding from_partial create_base fill
fills = record { fills = λ m. rw (Option-map-fill EnumValueOptions.fills m.options) refl }
