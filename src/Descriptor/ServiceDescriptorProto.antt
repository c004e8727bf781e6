-- ===== src/Descriptor/ServiceDescriptorProto.antt =====
-- `ServiceDescriptorProto` of web/src/generated/google/protobuf/descriptor.ts: the message and its
-- generated functions.
use sample_grpc_service.Prelude.{ℕ, ◌≡◌, refl, String, Option, none, some, List, [], ◌∷◌, ◌++◌, map}
use sample_grpc_service.Prelude.Outcome.{Outcome, ok, ◌>>=◌}
use sample_grpc_service.Partial.{get_or, Fills, map-fill, Option-map-fill}
use sample_grpc_service.Wire.{
  Field, on_case, ◌▸◌, ◌◃◌, write_message?, write_messages, decode_with, read_message,
}
use sample_grpc_service.Wire.Loop.{IsTotal}
use sample_grpc_service.Wire.Cases.{no_case, some_case}
use sample_grpc_service.Wire.Writes.{field_message?, field_messages}
use sample_grpc_service.Wire.Runs.{Runs, ◌⨾◌, OnOption, OnList}
use sample_grpc_service.Wire.Codec.{Codec, codec_of, Runs-message?, Runs-list, message-Ends}
use sample_grpc_service.Js.{Js, obj, get_prop?, set_message?, set_array, message_field, array_field}
use sample_grpc_service.Js.Laws.{is_set-obj}
use sample_grpc_service.Js.Codec.{JsonCodec, array-fill, message-fill}
use sample_grpc_service.Proto.{Runtime, Bytes, In, Out, text, write_or, read}
use sample_grpc_service.Proto.Laws.{RuntimeLaws}
use sample_grpc_service.Proto.Runs.{bytes_or}
use sample_grpc_service.Proto.Totals.{text_case}
use sample_grpc_service.Proto.Kept.{Enums, numbered, named, Runs-text}
use sample_grpc_service.Proto.Json.{no_props, js_text, field_or, set_or}
use sample_grpc_service.Proto.Json.Laws.{proto_laws}
use sample_grpc_service.Descriptor.MethodDescriptorProto
use sample_grpc_service.Descriptor.MethodDescriptorProto.{
  MethodDescriptorProto, MethodDescriptorProtoPartial,
}
use sample_grpc_service.Descriptor.ServiceOptions
use sample_grpc_service.Descriptor.ServiceOptions.{ServiceOptions, ServiceOptionsPartial}
use mathlib.Core.Option

pub record ServiceDescriptorProto : Type 0 where
  pub name : Option String
  pub method : List MethodDescriptorProto
  pub options : Option ServiceOptions

-- What `fromPartial` takes: each property may be missing, `null` or `undefined`.
pub record ServiceDescriptorProtoPartial : Type 0 where
  pub name : Option String
  pub method : Option (List MethodDescriptorProtoPartial)
  pub options : Option ServiceOptionsPartial

unfoldable pub create_base : ServiceDescriptorProto
create_base = record { name = some ""; method = []; options = none }

module _ (e : Runtime) where
  unfoldable pub encode : ServiceDescriptorProto → Out e → Out e
  encode m x =
      x
      ▸ write_or e (text e) 10 "" m.name
      ▸ write_messages e.wire (MethodDescriptorProto.encode e) 18 m.method
      ▸ write_message? e.wire (ServiceOptions.encode e) 26 m.options

  -- The `switch` of `decode`.
  unfoldable pub field : Field e.wire ServiceDescriptorProto
  field self tag m r =
      on_case 1 10 tag (read e (text e) r (λ v. record m { name = some v }))
      ◃ on_case 2 18 tag (
          read_message e.wire (MethodDescriptorProto.decode e) r
            (λ v. record m { method = m.method ++ (v ∷ []) }))
      ◃ on_case 3 26 tag
          (read_message e.wire (ServiceOptions.decode e) r (λ v. record m { options = some v }))
      ◃ none

  unfoldable pub decode : In e → Option ℕ → Outcome (ServiceDescriptorProto × In e)
  unfolding create_base
  decode r len = decode_with e.wire field create_base r len

  unfoldable pub from_json : Js → Outcome ServiceDescriptorProto
  from_json o = do
    name' ← field_or js_text "name" "" o
    method' ← array_field (MethodDescriptorProto.from_json e) (get_prop? "method" o)
    options' ← message_field (ServiceOptions.from_json e) "options" o
    ok (record { name = name'; method = method'; options = options' })

  unfoldable pub to_json : ServiceDescriptorProto → Js
  to_json m = obj (
      no_props
      ▸ set_or js_text "name" "" m.name
      ▸ set_array "method" (MethodDescriptorProto.to_json e) m.method
      ▸ set_message? "options" (ServiceOptions.to_json e) m.options)

unfoldable pub from_partial : ServiceDescriptorProtoPartial → ServiceDescriptorProto
unfolding create_base
from_partial o = record create_base {
  name = some (get_or "" o.name);
  method = get_or [] (Option.map (map MethodDescriptorProto.from_partial) o.method);
  options = Option.map ServiceOptions.from_partial o.options;
}

abbrev nothing : ServiceDescriptorProtoPartial
nothing = record { name = none; method = none; options = none }

-- `create(base)`; `base ?? {}`
unfoldable pub create : Option ServiceDescriptorProtoPartial → ServiceDescriptorProto
unfolding from_partial
create base = from_partial (get_or nothing base)

-- The message with its missing values at their defaults.
unfoldable pub fill : ServiceDescriptorProto → ServiceDescriptorProto
fill m = record {
  name = some (get_or "" m.name);
  method = map MethodDescriptorProto.fill m.method;
  options = Option.map ServiceOptions.fill m.options;
}

module _ (e : Runtime) where
  -- The wire format: the fields in the order of their writes, defaults left out.
  unfoldable pub bytes : ServiceDescriptorProto → Bytes e
  bytes m =
      bytes_or e (text e) 10 "" m.name
      ++ field_messages e.wire (MethodDescriptorProto.bytes e) 18 m.method
      ++ field_message? e.wire (ServiceOptions.bytes e) 26 m.options

  -- The numbers of the message fit their fields.
  abbrev pub Fits : Enums → ServiceDescriptorProto → Type 0
  Fits enums m =
      OnList (MethodDescriptorProto.Fits e enums) m.method
      × OnOption (ServiceOptions.Fits e enums) m.options

  module _ (laws : RuntimeLaws e) where
    pub runs :
        (m : ServiceDescriptorProto)
        → Fits numbered m
        → Runs e.wire laws.wire (field e) (encode e m) (bytes m) create_base (fill m)
    unfolding encode bytes field create_base fill
    runs m fits =
        Runs-text e laws "" 10 m.name (λ v k. record k { name = v }) refl (λ self k r. refl) refl
        ⨾ Runs-list e.wire laws.wire (MethodDescriptorProto.codec e laws) 18 m.method
            (λ v k. record k { method = v }) refl fits.0 (λ self before k r. refl) refl
        ⨾ Runs-message? e.wire laws.wire (ServiceOptions.codec e laws) 26 m.options
            (λ v k. record k { options = v }) refl fits.1 (λ self k r. refl) refl

    pub IsTotal-field : IsTotal e.wire laws.wire (field e)
    unfolding field
    IsTotal-field self tag m r h =
        (text_case e laws r 1 10 tag _
          ◃ some_case r 2 18 tag _
              (message-Ends e.wire laws.wire (MethodDescriptorProto.codec e laws) r _)
          ◃ some_case r 3 26 tag _ (message-Ends e.wire laws.wire (ServiceOptions.codec e laws) r _)
          ◃ no_case).ends

    pub decode-loop :
        (r : In e) (len : Option ℕ)
        → decode e r len ≡ decode_with e.wire (field e) create_base r len
    unfolding decode
    decode-loop r len = refl

    abbrev pub codec : Codec e.wire ServiceDescriptorProto
    codec =
        codec_of e.wire laws.wire (encode e) (decode e) (field e) create_base bytes fill
          (Fits numbered) decode-loop runs IsTotal-field

pub json_codec :
    (e : Runtime) → RuntimeLaws e → JsonCodec (to_json e) (from_json e) fill (Fits e named)
unfolding from_json to_json fill
json_codec e laws = record {
  from-to = λ m fits. simp (
    proto_laws,
    array-fill (MethodDescriptorProto.json_codec e laws) m.method fits.0,
    message-fill (ServiceOptions.json_codec e laws) m.options fits.1,
  );
  shown = λ m. is_set-obj _;
}

-- All of a message, as an argument of `fromPartial`.
abbrev pub whole : ServiceDescriptorProto → ServiceDescriptorProtoPartial
whole m = record {
  name = m.name;
  method = some (map MethodDescriptorProto.whole m.method);
  options = Option.map ServiceOptions.whole m.options;
}

pub fills : Fills whole from_partial fill
unfolding from_partial create_base fill
fills = record {
  fills = λ m.
      rw
        (
          map-fill MethodDescriptorProto.fills m.method,
          Option-map-fill ServiceOptions.fills m.options,
        )
        refl;
}
