-- ===== src/Descriptor/UninterpretedOption/Json.antt =====
-- The JSON and the partials of UninterpretedOption in
-- web/src/generated/google/protobuf/descriptor.ts.
use sample_grpc_service.Prelude.{refl, some, map}
use sample_grpc_service.Partial.{Fills, map-fill}
use sample_grpc_service.Wire.Runs.{Any-option}
use sample_grpc_service.Js.Laws.{is_set-obj}
use sample_grpc_service.Js.Codec.{JsonCodec, array-fill}
use sample_grpc_service.Proto.{Runtime}
use sample_grpc_service.Proto.Laws.{RuntimeLaws}
use sample_grpc_service.Proto.Kept.{named}
use sample_grpc_service.Proto.Json.Agrees.{js_integer-kept, js_double-kept, js_raw-kept}
use sample_grpc_service.Proto.Json.Laws.{proto_laws, either_or-default}
use sample_grpc_service.Descriptor.UninterpretedOptionNamePart
use sample_grpc_service.Descriptor.UninterpretedOption.{
  UninterpretedOption, UninterpretedOptionPartial, create_base, from_json, to_json, from_partial,
  fill,
}
use sample_grpc_service.Descriptor.UninterpretedOption.RoundTrip.{Fits}

pub json_codec :
    (e : Runtime) → RuntimeLaws e → JsonCodec (to_json e) (from_json e) fill (Fits e named)
unfolding from_json to_json fill
json_codec e laws = record {
  from-to = λ m fits. simp (
    proto_laws,
    array-fill (UninterpretedOptionNamePart.json_codec e laws) m.name fits.0,
    either_or-default (js_integer-kept e laws laws.round_uint64 "0") m.positive_int_value fits.1,
    either_or-default (js_integer-kept e laws laws.round_int64 "0") m.negative_int_value fits.2,
    either_or-default (js_double-kept e laws "0") m.double_value (Any-option m.double_value),
    either_or-default (js_raw-kept e laws) m.string_value fits.4,
  );
  shown = λ m. is_set-obj _;
}

-- All of a message, as an argument of `fromPartial`.
abbrev pub whole : UninterpretedOption → UninterpretedOptionPartial
whole m = record {
  name = some (map UninterpretedOptionNamePart.whole m.name);
  identifier_value = m.identifier_value;
  positive_int_value = m.positive_int_value;
  negative_int_value = m.negative_int_value;
  double_value = m.double_value;
  string_value = m.string_value;
  aggregate_value = m.aggregate_value;
}

pub fills : Fills whole from_partial fill
unfolding from_partial create_base fill
fills = record { fills = λ m. rw (map-fill UninterpretedOptionNamePart.fills m.name) refl }
