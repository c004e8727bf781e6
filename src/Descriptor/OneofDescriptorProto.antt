-- ===== src/Descriptor/OneofDescriptorProto.antt =====
-- `OneofDescriptorProto` of web/src/generated/google/protobuf/descriptor.ts: the message and its
-- generated functions.
use sample_grpc_service.Prelude.{ℕ, ◌≡◌, refl, String, Option, none, some, ◌++◌}
use sample_grpc_service.Prelude.Outcome.{Outcome, ok, ◌>>=◌}
use sample_grpc_service.Partial.{get_or, Fills, Option-map-fill}
use sample_grpc_service.Wire.{Field, on_case, ◌▸◌, ◌◃◌, write_message?, decode_with, read_message}
use sample_grpc_service.Wire.Loop.{IsTotal}
use sample_grpc_service.Wire.Cases.{no_case, some_case}
use sample_grpc_service.Wire.Writes.{field_message?}
use sample_grpc_service.Wire.Runs.{Runs, ◌⨾◌, OnOption}
use sample_grpc_service.Wire.Codec.{Codec, codec_of, Runs-message?, message-Ends}
use sample_grpc_service.Js.{Js, obj, set_message?, message_field}
use sample_grpc_service.Js.Laws.{is_set-obj}
use sample_grpc_service.Js.Codec.{JsonCodec, message-fill}
use sample_grpc_service.Proto.{Runtime, Bytes, In, Out, text, write_or, read}
use sample_grpc_service.Proto.Laws.{RuntimeLaws}
use sample_grpc_service.Proto.Runs.{bytes_or}
use sample_grpc_service.Proto.Totals.{text_case}
use sample_grpc_service.Proto.Kept.{Enums, numbered, named, Runs-text}
use sample_grpc_service.Proto.Json.{no_props, js_text, field_or, set_or}
use sample_grpc_service.Proto.Json.Laws.{proto_laws}
use sample_grpc_service.Descriptor.OneofOptions
use sample_grpc_service.Descriptor.OneofOptions.{OneofOptions, OneofOptionsPartial}
use mathlib.Core.Option

pub record OneofDescriptorProto : Type 0 where
  pub name : Option String
  pub options : Option OneofOptions

-- What `fromPartial` takes: each property may be missing, `null` or `undefined`.
pub record OneofDescriptorProtoPartial : Type 0 where
  pub name : Option String
  pub options : Option OneofOptionsPartial

unfoldable pub create_base : OneofDescriptorProto
create_base = record { name = some ""; options = none }

module _ (e : Runtime) where
  unfoldable pub encode : OneofDescriptorProto → Out e → Out e
  encode m x =
      x
      ▸ write_or e (text e) 10 "" m.name
      ▸ write_message? e.wire (OneofOptions.encode e) 18 m.options

  -- The `switch` of `decode`.
  unfoldable pub field : Field e.wire OneofDescriptorProto
  field self tag m r =
      on_case 1 10 tag (read e (text e) r (λ v. record m { name = some v }))
      ◃ on_case 2 18 tag
          (read_message e.wire (OneofOptions.decode e) r (λ v. record m { options = some v }))
      ◃ none

  unfoldable pub decode : In e → Option ℕ → Outcome (OneofDescriptorProto × In e)
  unfolding create_base
  decode r len = decode_with e.wire field create_base r len

  unfoldable pub from_json : Js → Outcome OneofDescriptorProto
  from_json o = do
    name' ← field_or js_text "name" "" o
    options' ← message_field (OneofOptions.from_json e) "options" o
    ok (record { name = name'; options = options' })

  unfoldable pub to_json : OneofDescriptorProto → Js
  to_json m = obj (
      no_props
      ▸ set_or js_text "name" "" m.name
      ▸ set_message? "options" (OneofOptions.to_json e) m.options)

unfoldable pub from_partial : OneofDescriptorProtoPartial → OneofDescriptorProto
unfolding create_base
from_partial o = record create_base {
  name = some (get_or "" o.name);
  options = Option.map OneofOptions.from_partial o.options;
}

abbrev nothing : OneofDescriptorProtoPartial
nothing = record { name = none; options = none }

-- `create(base)`; `base ?? {}`
unfoldable pub create : Option OneofDescriptorProtoPartial → OneofDescriptorProto
unfolding from_partial
create base = from_partial (get_or nothing base)

-- The message with its missing values at their defaults.
unfoldable pub fill : OneofDescriptorProto → OneofDescriptorProto
fill m = record { name = some (get_or "" m.name); options = Option.map OneofOptions.fill m.options }

module _ (e : Runtime) where
  -- The wire format: the fields in the order of their writes, defaults left out.
  unfoldable pub bytes : OneofDescriptorProto → Bytes e
  bytes m =
      bytes_or e (text e) 10 "" m.name ++ field_message? e.wire (OneofOptions.bytes e) 18 m.options

  -- The numbers of the message fit their fields.
  abbrev pub Fits : Enums → OneofDescriptorProto → Type 0
  Fits enums m = OnOption (OneofOptions.Fits e enums) m.options

  module _ (laws : RuntimeLaws e) where
    pub runs :
        (m : OneofDescriptorProto)
        → Fits numbered m
        → Runs e.wire laws.wire (field e) (encode e m) (bytes m) create_base (fill m)
    unfolding encode bytes field create_base fill
    runs m fits =
        Runs-text e laws "" 10 m.name (λ v k. record k { name = v }) refl (λ self k r. refl) refl
        ⨾ Runs-message? e.wire laws.wire (OneofOptions.codec e laws) 18 m.options
            (λ v k. record k { options = v }) refl fits (λ self k r. refl) refl

    pub IsTotal-field : IsTotal e.wire laws.wire (field e)
    unfolding field
    IsTotal-field self tag m r h =
        (text_case e laws r 1 10 tag _
          ◃ some_case r 2 18 tag _ (message-Ends e.wire laws.wire (OneofOptions.codec e laws) r _)
          ◃ no_case).ends

    pub decode-loop :
        (r : In e) (len : Option ℕ)
        → decode e r len ≡ decode_with e.wire (field e) create_base r len
    unfolding decode
    decode-loop r len = refl

    abbrev pub codec : Codec e.wire OneofDescriptorProto
    codec =
        codec_of e.wire laws.wire (encode e) (decode e) (field e) create_base bytes fill
          (Fits numbered) decode-loop runs IsTotal-field

pub json_codec :
    (e : Runtime) → RuntimeLaws e → JsonCodec (to_json e) (from_json e) fill (Fits e named)
unfolding from_json to_json fill
json_codec e laws = record {
  from-to =
      λ m fits. simp (proto_laws, message-fill (OneofOptions.json_codec e laws) m.options fits);
  shown = λ m. is_set-obj _;
}

-- All of a message, as an argument of `fromPartial`.
abbrev pub whole : OneofDescriptorProto → OneofDescriptorProtoPartial
whole m = record { name = m.name; options = Option.map OneofOptions.whole m.options }

pub fills : Fills whole from_partial fill
unfolding from_partial create_base fill
fills = record { fills = λ m. rw (Option-map-fill OneofOptions.fills m.options) refl }
