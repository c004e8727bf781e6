-- ===== src/Descriptor/MessageOptions/Json.antt =====
-- The JSON and the partials of MessageOptions in
-- web/src/generated/google/protobuf/descriptor.ts.
use sample_grpc_service.Prelude.{refl, some, map}
use sample_grpc_service.Partial.{Fills, map-fill, Option-map-fill}
use sample_grpc_service.Js.Laws.{is_set-obj}
use sample_grpc_service.Js.Codec.{JsonCodec, message-fill}
use sample_grpc_service.Proto.{Runtime}
use sample_grpc_service.Proto.Laws.{RuntimeLaws}
use sample_grpc_service.Proto.Kept.{named}
use sample_grpc_service.Proto.Json.Laws.{proto_laws, array_either-fill}
use sample_grpc_service.Descriptor.FeatureSet
use sample_grpc_service.Descriptor.UninterpretedOption
use sample_grpc_service.Descriptor.MessageOptions.{
  MessageOptions, MessageOptionsPartial, create_base, from_json, to_json, from_partial, fill,
}
use sample_grpc_service.Descriptor.MessageOptions.RoundTrip.{Fits}
use mathlib.Core.Option

pub json_codec :
    (e : Runtime) → RuntimeLaws e → JsonCodec (to_json e) (from_json e) fill (Fits e named)
unfolding from_json to_json fill
json_codec e laws = record {
  from-to = λ m fits. simp (
    proto_laws,
    message-fill (FeatureSet.json_codec e laws) m.features fits.0,
    array_either-fill (UninterpretedOption.Json.json_codec e laws) m.uninterpreted_option fits.1,
  );
  shown = λ m. is_set-obj _;
}

-- All of a message, as an argument of `fromPartial`.
abbrev pub whole : MessageOptions → MessageOptionsPartial
whole m = record {
  message_set_wire_format = m.message_set_wire_format;
  no_standard_descriptor_accessor = m.no_standard_descriptor_accessor;
  deprecated = m.deprecated;
  map_entry = m.map_entry;
  deprecated_legacy_json_field_conflicts = m.deprecated_legacy_json_field_conflicts;
  features = Option.map FeatureSet.whole m.features;
  uninterpreted_option = some (map UninterpretedOption.Json.whole m.uninterpreted_option);
}

pub fills : Fills whole from_partial fill
unfolding from_partial create_base fill
fills = record {
  fills = λ m.
      rw
        (
          Option-map-fill FeatureSet.fills m.features,
          map-fill UninterpretedOption.Json.fills m.uninterpreted_option,
        )
        refl;
}
