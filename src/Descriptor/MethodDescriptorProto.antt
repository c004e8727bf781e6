-- ===== src/Descriptor/MethodDescriptorProto.antt =====
-- `MethodDescriptorProto` of web/src/generated/google/protobuf/descriptor.ts: the message and its
-- generated functions.
use sample_grpc_service.Prelude.{ℕ, ◌≡◌, refl, String, Bool, false, Option, none, some, ◌++◌}
use sample_grpc_service.Prelude.Outcome.{Outcome, ok, ◌>>=◌}
use sample_grpc_service.Partial.{get_or, Fills, Option-map-fill}
use sample_grpc_service.Wire.{Field, on_case, ◌▸◌, ◌◃◌, write_message?, decode_with, read_message}
use sample_grpc_service.Wire.Loop.{IsTotal}
use sample_grpc_service.Wire.Cases.{no_case, some_case}
use sample_grpc_service.Wire.Writes.{field_message?}
use sample_grpc_service.Wire.Runs.{Runs, ◌⨾◌, OnOption}
use sample_grpc_service.Wire.Codec.{Codec, codec_of, Runs-message?, message-Ends}
use sample_grpc_service.Js.{Js, obj, set_message?, message_field}
use sample_grpc_service.Js.Laws.{is_set-obj}
use sample_grpc_service.Js.Codec.{JsonCodec, message-fill}
use sample_grpc_service.Proto.{Runtime, Bytes, In, Out, text, flag, write_or, read}
use sample_grpc_service.Proto.Laws.{RuntimeLaws}
use sample_grpc_service.Proto.Runs.{bytes_or}
use sample_grpc_service.Proto.Totals.{text_case, flag_case}
use sample_grpc_service.Proto.Kept.{Enums, numbered, named, Runs-text, Runs-flag}
use sample_grpc_service.Proto.Json.{no_props, js_text, js_flag, field_or, field_either, set_or}
use sample_grpc_service.Proto.Json.Laws.{proto_laws}
use sample_grpc_service.Descriptor.MethodOptions
use sample_grpc_service.Descriptor.MethodOptions.{MethodOptions, MethodOptionsPartial}
use mathlib.Core.Option

pub record MethodDescriptorProto : Type 0 where
  pub name : Option String
  pub input_type : Option String
  pub output_type : Option String
  pub options : Option MethodOptions
  pub client_streaming : Option Bool
  pub server_streaming : Option Bool

-- What `fromPartial` takes: each property may be missing, `null` or `undefined`.
pub record MethodDescriptorProtoPartial : Type 0 where
  pub name : Option String
  pub input_type : Option String
  pub output_type : Option String
  pub options : Option MethodOptionsPartial
  pub client_streaming : Option Bool
  pub server_streaming : Option Bool

unfoldable pub create_base : MethodDescriptorProto
create_base = record {
  name = some "";
  input_type = some "";
  output_type = some "";
  options = none;
  client_streaming = some false;
  server_streaming = some false;
}

module _ (e : Runtime) where
  unfoldable pub encode : MethodDescriptorProto → Out e → Out e
  encode m x =
      x
      ▸ write_or e (text e) 10 "" m.name
      ▸ write_or e (text e) 18 "" m.input_type
      ▸ write_or e (text e) 26 "" m.output_type
      ▸ write_message? e.wire (MethodOptions.encode e) 34 m.options
      ▸ write_or e (flag e) 40 false m.client_streaming
      ▸ write_or e (flag e) 48 false m.server_streaming

  -- The `switch` of `decode`.
  unfoldable pub field : Field e.wire MethodDescriptorProto
  field self tag m r =
      on_case 1 10 tag (read e (text e) r (λ v. record m { name = some v }))
      ◃ on_case 2 18 tag (read e (text e) r (λ v. record m { input_type = some v }))
      ◃ on_case 3 26 tag (read e (text e) r (λ v. record m { output_type = some v }))
      ◃ on_case 4 34 tag
          (read_message e.wire (MethodOptions.decode e) r (λ v. record m { options = some v }))
      ◃ on_case 5 40 tag (read e (flag e) r (λ v. record m { client_streaming = some v }))
      ◃ on_case 6 48 tag (read e (flag e) r (λ v. record m { server_streaming = some v }))
      ◃ none

  unfoldable pub decode : In e → Option ℕ → Outcome (MethodDescriptorProto × In e)
  unfolding create_base
  decode r len = decode_with e.wire field create_base r len

  unfoldable pub from_json : Js → Outcome MethodDescriptorProto
  from_json o = do
    name' ← field_or js_text "name" "" o
    input_type' ← field_either js_text "inputType" "input_type" "" o
    output_type' ← field_either js_text "outputType" "output_type" "" o
    options' ← message_field (MethodOptions.from_json e) "options" o
    client_streaming' ← field_either js_flag "clientStreaming" "client_streaming" false o
    server_streaming' ← field_either js_flag "serverStreaming" "server_streaming" false o
    ok (record {
      name = name';
      input_type = input_type';
      output_type = output_type';
      options = options';
      client_streaming = client_streaming';
      server_streaming = server_streaming';
    })

  unfoldable pub to_json : MethodDescriptorProto → Js
  to_json m = obj (
      no_props
      ▸ set_or js_text "name" "" m.name
      ▸ set_or js_text "inputType" "" m.input_type
      ▸ set_or js_text "outputType" "" m.output_type
      ▸ set_message? "options" (MethodOptions.to_json e) m.options
      ▸ set_or js_flag "clientStreaming" false m.client_streaming
      ▸ set_or js_flag "serverStreaming" false m.server_streaming)

unfoldable pub from_partial : MethodDescriptorProtoPartial → MethodDescriptorProto
unfolding create_base
from_partial o = record create_base {
  name = some (get_or "" o.name);
  input_type = some (get_or "" o.input_type);
  output_type = some (get_or "" o.output_type);
  options = Option.map MethodOptions.from_partial o.options;
  client_streaming = some (get_or false o.client_streaming);
  server_streaming = some (get_or false o.server_streaming);
}

abbrev nothing : MethodDescriptorProtoPartial
nothing = record {
  name = none;
  input_type = none;
  output_type = none;
  options = none;
  client_streaming = none;
  server_streaming = none;
}

-- `create(base)`; `base ?? {}`
unfoldable pub create : Option MethodDescriptorProtoPartial → MethodDescriptorProto
unfolding from_partial
create base = from_partial (get_or nothing base)

-- The message with its missing values at their defaults.
unfoldable pub fill : MethodDescriptorProto → MethodDescriptorProto
fill m = record {
  name = some (get_or "" m.name);
  input_type = some (get_or "" m.input_type);
  output_type = some (get_or "" m.output_type);
  options = Option.map MethodOptions.fill m.options;
  client_streaming = some (get_or false m.client_streaming);
  server_streaming = some (get_or false m.server_streaming);
}

module _ (e : Runtime) where
  -- The wire format: the fields in the order of their writes, defaults left out.
  unfoldable pub bytes : MethodDescriptorProto → Bytes e
  bytes m =
      bytes_or e (text e) 10 "" m.name
      ++ bytes_or e (text e) 18 "" m.input_type
      ++ bytes_or e (text e) 26 "" m.output_type
      ++ field_message? e.wire (MethodOptions.bytes e) 34 m.options
      ++ bytes_or e (flag e) 40 false m.client_streaming
      ++ bytes_or e (flag e) 48 false m.server_streaming

  -- The numbers of the message fit their fields.
  abbrev pub Fits : Enums → MethodDescriptorProto → Type 0
  Fits enums m = OnOption (MethodOptions.Fits e enums) m.options

  module _ (laws : RuntimeLaws e) where
    pub runs :
        (m : MethodDescriptorProto)
        → Fits numbered m
        → Runs e.wire laws.wire (field e) (encode e m) (bytes m) create_base (fill m)
    unfolding encode bytes field create_base fill
    runs m fits =
        Runs-text e laws "" 10 m.name (λ v k. record k { name = v }) refl (λ self k r. refl) refl
        ⨾ Runs-text e laws "" 18 m.input_type (λ v k. record k { input_type = v }) refl
            (λ self k r. refl) refl
        ⨾ Runs-text e laws "" 26 m.output_type (λ v k. record k { output_type = v }) refl
            (λ self k r. refl) refl
        ⨾ Runs-message? e.wire laws.wire (MethodOptions.codec e laws) 34 m.options
            (λ v k. record k { options = v }) refl fits (λ self k r. refl) refl
        ⨾ Runs-flag e laws false 40 m.client_streaming (λ v k. record k { client_streaming = v })
            refl (λ self k r. refl) refl
        ⨾ Runs-flag e laws false 48 m.server_streaming (λ v k. record k { server_streaming = v })
            refl (λ self k r. refl) refl

    pub IsTotal-field : IsTotal e.wire laws.wire (field e)
    unfolding field
    IsTotal-field self tag m r h =
        (text_case e laws r 1 10 tag _
          ◃ text_case e laws r 2 18 tag _
          ◃ text_case e laws r 3 26 tag _
          ◃ some_case r 4 34 tag _ (message-Ends e.wire laws.wire (MethodOptions.codec e laws) r _)
          ◃ flag_case e laws r 5 40 tag _
          ◃ flag_case e laws r 6 48 tag _
          ◃ no_case).ends

    pub decode-loop :
        (r : In e) (len : Option ℕ)
        → decode e r len ≡ decode_with e.wire (field e) create_base r len
    unfolding decode
    decode-loop r len = refl

    abbrev pub codec : Codec e.wire MethodDescriptorProto
    codec =
        codec_of e.wire laws.wire (encode e) (decode e) (field e) create_base bytes fill
          (Fits numbered) decode-loop runs IsTotal-field

pub json_codec :
    (e : Runtime) → RuntimeLaws e → JsonCodec (to_json e) (from_json e) fill (Fits e named)
unfolding from_json to_json fill
json_codec e laws = record {
  from-to =
      λ m fits. simp (proto_laws, message-fill (MethodOptions.json_codec e laws) m.options fits);
  shown = λ m. is_set-obj _;
}

-- All of a message, as an argument of `fromPartial`.
abbrev pub whole : MethodDescriptorProto → MethodDescriptorProtoPartial
whole m = record {
  name = m.name;
  input_type = m.input_type;
  output_type = m.output_type;
  options = Option.map MethodOptions.whole m.options;
  client_streaming = m.client_streaming;
  server_streaming = m.server_streaming;
}

pub fills : Fills whole from_partial fill
unfolding from_partial create_base fill
fills = record { fills = λ m. rw (Option-map-fill MethodOptions.fills m.options) refl }
