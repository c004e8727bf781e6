-- ===== src/Descriptor/FieldDescriptorProto/Json.antt =====
-- The JSON and the partials of FieldDescriptorProto in
-- web/src/generated/google/protobuf/descriptor.ts.
use sample_grpc_service.Prelude.{refl}
use sample_grpc_service.Partial.{Fills, Option-map-fill}
use sample_grpc_service.Js.Laws.{is_set-obj}
use sample_grpc_service.Js.Codec.{JsonCodec, message-fill}
use sample_grpc_service.Proto.{Runtime}
use sample_grpc_service.Proto.Laws.{RuntimeLaws}
use sample_grpc_service.Proto.Kept.{named}
use sample_grpc_service.Proto.Json.Agrees.{js_integer-kept}
use sample_grpc_service.Proto.Json.Laws.{proto_laws, value_or-default, either_or-default}
use sample_grpc_service.Descriptor.FieldDescriptorProtoLabel
use sample_grpc_service.Descriptor.FieldDescriptorProtoType
use sample_grpc_service.Descriptor.FieldOptions
use sample_grpc_service.Descriptor.FieldDescriptorProto.{
  FieldDescriptorProto, FieldDescriptorProtoPartial, create_base, from_json, to_json, from_partial,
  fill,
}
use sample_grpc_service.Descriptor.FieldDescriptorProto.RoundTrip.{Fits}
use mathlib.Core.Option

pub json_codec :
    (e : Runtime) → RuntimeLaws e → JsonCodec (to_json e) (from_json e) fill (Fits e named)
unfolding from_json to_json fill
json_codec e laws = record {
  from-to = λ m fits. simp (
    proto_laws,
    value_or-default (js_integer-kept e laws laws.round_int32 "0") m.number fits.0,
    value_or-default (FieldDescriptorProtoLabel.Json.scalar-kept "1") m.label fits.1,
    value_or-default (FieldDescriptorProtoType.Json.scalar-kept "1") m.type fits.2,
    either_or-default (js_integer-kept e laws laws.round_int32 "0") m.oneof_index fits.3,
    message-fill (FieldOptions.Json.json_codec e laws) m.options fits.4,
  );
  shown = λ m. is_set-obj _;
}

-- All of a message, as an argument of `fromPartial`.
abbrev pub whole : FieldDescriptorProto → FieldDescriptorProtoPartial
whole m = record {
  name = m.name;
  number = m.number;
  label = m.label;
  type = m.type;
  type_name = m.type_name;
  extendee = m.extendee;
  default_value = m.default_value;
  oneof_index = m.oneof_index;
  json_name = m.json_name;
  options = Option.map FieldOptions.Json.whole m.options;
  proto3_optional = m.proto3_optional;
}

pub fills : Fills whole from_partial fill
unfolding from_partial create_base fill
fills = record { fills = λ m. rw (Option-map-fill FieldOptions.Json.fills m.options) refl }
