-- ===== src/Descriptor/EnumDescriptorProto.antt =====
-- `EnumDescriptorProto` of web/src/generated/google/protobuf/descriptor.ts: the message and its
-- generated functions.
use sample_grpc_service.Prelude.{ℕ, ◌≡◌, refl, String, Option, none, some, List, [], ◌∷◌, ◌++◌, map}
use sample_grpc_service.Prelude.Outcome.{Outcome, ok, ◌>>=◌}
use sample_grpc_service.Partial.{get_or, Fills, map-fill, Option-map-fill}
use sample_grpc_service.Wire.{
  Field, on_case, ◌▸◌, ◌◃◌, write_message?, write_messages, decode_with, read_message,
}
use sample_grpc_service.Wire.Loop.{IsTotal}
use sample_grpc_service.Wire.Cases.{no_case, some_case}
use sample_grpc_service.Wire.Writes.{field_message?, field_messages}
use sample_grpc_service.Wire.Runs.{Runs, ◌⨾◌, OnOption, OnList, Any-list}
use sample_grpc_service.Wire.Codec.{Codec, codec_of, Runs-message?, Runs-list, message-Ends}
use sample_grpc_service.Js.{Js, obj, get_prop?, set_message?, set_array, message_field, array_field}
use sample_grpc_service.Js.Laws.{is_set-obj}
use sample_grpc_service.Js.Codec.{JsonCodec, array-fill, message-fill}
use sample_grpc_service.Proto.{Runtime, Bytes, In, Out, text, write_or, write_each, read}
use sample_grpc_service.Proto.Laws.{RuntimeLaws}
use sample_grpc_service.Proto.Runs.{bytes_or, bytes_each}
use sample_grpc_service.Proto.Totals.{text_case}
use sample_grpc_service.Proto.Kept.{Enums, numbered, named, Runs-text, Runs-texts}
use sample_grpc_service.Proto.Json.{no_props, js_text, field_or, set_or, array_either}
use sample_grpc_service.Proto.Json.Agrees.{js_text-agrees}
use sample_grpc_service.Proto.Json.Laws.{proto_laws, array_either-fill, scalar_codec}
use sample_grpc_service.Descriptor.EnumValueDescriptorProto
use sample_grpc_service.Descriptor.EnumValueDescriptorProto.{
  EnumValueDescriptorProto, EnumValueDescriptorProtoPartial,
}
use sample_grpc_service.Descriptor.EnumOptions
use sample_grpc_service.Descriptor.EnumOptions.{EnumOptions, EnumOptionsPartial}
use sample_grpc_service.Descriptor.EnumDescriptorProtoEnumReservedRange
use sample_grpc_service.Descriptor.EnumDescriptorProtoEnumReservedRange.{
  EnumDescriptorProtoEnumReservedRange, EnumDescriptorProtoEnumReservedRangePartial,
}
use mathlib.Core.Option

pub record EnumDescriptorProto : Type 0 where
  pub name : Option String
  pub value : List EnumValueDescriptorProto
  pub options : Option EnumOptions
  pub reserved_range : List EnumDescriptorProtoEnumReservedRange
  pub reserved_name : List String

-- What `fromPartial` takes: each property may be missing, `null` or `undefined`.
pub record EnumDescriptorProtoPartial : Type 0 where
  pub name : Option String
  pub value : Option (List EnumValueDescriptorProtoPartial)
  pub options : Option EnumOptionsPartial
  pub reserved_range : Option (List EnumDescriptorProtoEnumReservedRangePartial)
  pub reserved_name : Option (List String)

unfoldable pub create_base : EnumDescriptorProto
create_base = record {
  name = some "";
  value = [];
  options = none;
  reserved_range = [];
  reserved_name = [];
}

module _ (e : Runtime) where
  unfoldable pub encode : EnumDescriptorProto → Out e → Out e
  encode m x =
      x
      ▸ write_or e (text e) 10 "" m.name
      ▸ write_messages e.wire (EnumValueDescriptorProto.encode e) 18 m.value
      ▸ write_message? e.wire (EnumOptions.encode e) 26 m.options
      ▸ write_messages e.wire (EnumDescriptorProtoEnumReservedRange.encode e) 34 m.reserved_range
      ▸ write_each e (text e) 42 m.reserved_name

  -- The `switch` of `decode`.
  unfoldable pub field : Field e.wire EnumDescriptorProto
  field self tag m r =
      on_case 1 10 tag (read e (text e) r (λ v. record m { name = some v }))
      ◃ on_case 2 18 tag (
          read_message e.wire (EnumValueDescriptorProto.decode e) r
            (λ v. record m { value = m.value ++ (v ∷ []) }))
      ◃ on_case 3 26 tag
          (read_message e.wire (EnumOptions.decode e) r (λ v. record m { options = some v }))
      ◃ on_case 4 34 tag (
          read_message e.wire (EnumDescriptorProtoEnumReservedRange.decode e) r
            (λ v. record m { reserved_range = m.reserved_range ++ (v ∷ []) }))
      ◃ on_case 5 42 tag
          (read e (text e) r (λ v. record m { reserved_name = m.reserved_name ++ (v ∷ []) }))
      ◃ none

  unfoldable pub decode : In e → Option ℕ → Outcome (EnumDescriptorProto × In e)
  unfolding create_base
  decode r len = decode_with e.wire field create_base r len

  unfoldable pub from_json : Js → Outcome EnumDescriptorProto
  from_json o = do
    name' ← field_or js_text "name" "" o
    value' ← array_field (EnumValueDescriptorProto.from_json e) (get_prop? "value" o)
    options' ← message_field (EnumOptions.from_json e) "options" o
    reserved_range' ←
        array_either (EnumDescriptorProtoEnumReservedRange.from_json e)
          (get_prop? "reservedRange" o) (get_prop? "reserved_range" o)
    reserved_name' ←
        array_either js_text.from (get_prop? "reservedName" o) (get_prop? "reserved_name" o)
    ok (record {
      name = name';
      value = value';
      options = options';
      reserved_range = reserved_range';
      reserved_name = reserved_name';
    })

  unfoldable pub to_json : EnumDescriptorProto → Js
  to_json m = obj (
      no_props
      ▸ set_or js_text "name" "" m.name
      ▸ set_array "value" (EnumValueDescriptorProto.to_json e) m.value
      ▸ set_message? "options" (EnumOptions.to_json e) m.options
      ▸ set_array "reservedRange" (EnumDescriptorProtoEnumReservedRange.to_json e) m.reserved_range
      ▸ set_array "reservedName" js_text.to m.reserved_name)

unfoldable pub from_partial : EnumDescriptorProtoPartial → EnumDescriptorProto
unfolding create_base
from_partial o = record create_base {
  name = some (get_or "" o.name);
  value = get_or [] (Option.map (map EnumValueDescriptorProto.from_partial) o.value);
  options = Option.map EnumOptions.from_partial o.options;
  reserved_range =
      get_or []
        (Option.map (map EnumDescriptorProtoEnumReservedRange.from_partial) o.reserved_range);
  reserved_name = get_or [] (Option.map (map (λ v. v)) o.reserved_name);
}

abbrev nothing : EnumDescriptorProtoPartial
nothing = record {
  name = none;
  value = none;
  options = none;
  reserved_range = none;
  reserved_name = none;
}

-- `create(base)`; `base ?? {}`
unfoldable pub create : Option EnumDescriptorProtoPartial → EnumDescriptorProto
unfolding from_partial
create base = from_partial (get_or nothing base)

-- The message with its missing values at their defaults.
unfoldable pub fill : EnumDescriptorProto → EnumDescriptorProto
fill m = record {
  name = some (get_or "" m.name);
  value = map EnumValueDescriptorProto.fill m.value;
  options = Option.map EnumOptions.fill m.options;
  reserved_range = map EnumDescriptorProtoEnumReservedRange.fill m.reserved_range;
  reserved_name = map (λ v. v) m.reserved_name;
}

module _ (e : Runtime) where
  -- The wire format: the fields in the order of their writes, defaults left out.
  unfoldable pub bytes : EnumDescriptorProto → Bytes e
  bytes m =
      bytes_or e (text e) 10 "" m.name
      ++ field_messages e.wire (EnumValueDescriptorProto.bytes e) 18 m.value
      ++ field_message? e.wire (EnumOptions.bytes e) 26 m.options
      ++ field_messages e.wire (EnumDescriptorProtoEnumReservedRange.bytes e) 34 m.reserved_range
      ++ bytes_each e (text e) 42 m.reserved_name

  -- The numbers of the message fit their fields.
  abbrev pub Fits : Enums → EnumDescriptorProto → Type 0
  Fits enums m =
      OnList (EnumValueDescriptorProto.Fits e enums) m.value
      × OnOption (EnumOptions.Fits e enums) m.options
      × OnList (EnumDescriptorProtoEnumReservedRange.Fits e enums) m.reserved_range

  module _ (laws : RuntimeLaws e) where
    pub runs :
        (m : EnumDescriptorProto)
        → Fits numbered m
        → Runs e.wire laws.wire (field e) (encode e m) (bytes m) create_base (fill m)
    unfolding encode bytes field create_base fill
    runs m fits =
        Runs-text e laws "" 10 m.name (λ v k. record k { name = v }) refl (λ self k r. refl) refl
        ⨾ Runs-list e.wire laws.wire (EnumValueDescriptorProto.codec e laws) 18 m.value
            (λ v k. record k { value = v }) refl fits.0 (λ self before k r. refl) refl
        ⨾ Runs-message? e.wire laws.wire (EnumOptions.codec e laws) 26 m.options
            (λ v k. record k { options = v }) refl fits.1 (λ self k r. refl) refl
        ⨾ Runs-list e.wire laws.wire (EnumDescriptorProtoEnumReservedRange.codec e laws) 34
            m.reserved_range (λ v k. record k { reserved_range = v }) refl fits.2
            (λ self before k r. refl) refl
        ⨾ Runs-texts e laws 42 m.reserved_name (λ v k. record k { reserved_name = v }) refl
            (λ self before k r. refl) refl

    pub IsTotal-field : IsTotal e.wire laws.wire (field e)
    unfolding field
    IsTotal-field self tag m r h =
        (text_case e laws r 1 10 tag _
          ◃ some_case r 2 18 tag _
              (message-Ends e.wire laws.wire (EnumValueDescriptorProto.codec e laws) r _)
          ◃ some_case r 3 26 tag _ (message-Ends e.wire laws.wire (EnumOptions.codec e laws) r _)
          ◃ some_case r 4 34 tag _ (
              message-Ends e.wire laws.wire (EnumDescriptorProtoEnumReservedRange.codec e laws) r _)
          ◃ text_case e laws r 5 42 tag _
          ◃ no_case).ends

    pub decode-loop :
        (r : In e) (len : Option ℕ)
        → decode e r len ≡ decode_with e.wire (field e) create_base r len
    unfolding decode
    decode-loop r len = refl

    abbrev pub codec : Codec e.wire EnumDescriptorProto
    codec =
        codec_of e.wire laws.wire (encode e) (decode e) (field e) create_base bytes fill
          (Fits numbered) decode-loop runs IsTotal-field

pub json_codec :
    (e : Runtime) → RuntimeLaws e → JsonCodec (to_json e) (from_json e) fill (Fits e named)
unfolding from_json to_json fill
json_codec e laws = record {
  from-to = λ m fits. simp (
    proto_laws,
    array-fill (EnumValueDescriptorProto.json_codec e laws) m.value fits.0,
    message-fill (EnumOptions.json_codec e laws) m.options fits.1,
    array_either-fill (EnumDescriptorProtoEnumReservedRange.json_codec e laws) m.reserved_range
        fits.2,
    array_either-fill (scalar_codec js_text-agrees) m.reserved_name (Any-list m.reserved_name),
  );
  shown = λ m. is_set-obj _;
}

-- All of a message, as an argument of `fromPartial`.
abbrev pub whole : EnumDescriptorProto → EnumDescriptorProtoPartial
whole m = record {
  name = m.name;
  value = some (map EnumValueDescriptorProto.whole m.value);
  options = Option.map EnumOptions.whole m.options;
  reserved_range = some (map EnumDescriptorProtoEnumReservedRange.whole m.reserved_range);
  reserved_name = some m.reserved_name;
}

pub fills : Fills whole from_partial fill
unfolding from_partial create_base fill
fills = record {
  fills = λ m.
      rw
        (
          map-fill EnumValueDescriptorProto.fills m.value,
          Option-map-fill EnumOptions.fills m.options,
          map-fill EnumDescriptorProtoEnumReservedRange.fills m.reserved_range,
        )
        refl;
}
