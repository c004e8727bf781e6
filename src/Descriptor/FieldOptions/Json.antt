-- ===== src/Descriptor/FieldOptions/Json.antt =====
-- The JSON and the partials of FieldOptions in
-- web/src/generated/google/protobuf/descriptor.ts.
use sample_grpc_service.Prelude.{refl, some, map}
use sample_grpc_service.Partial.{Fills, map-fill, Option-map-fill}
use sample_grpc_service.Js.Laws.{is_set-obj}
use sample_grpc_service.Js.Codec.{JsonCodec, array-fill, message-fill}
use sample_grpc_service.Proto.{Runtime}
use sample_grpc_service.Proto.Laws.{RuntimeLaws}
use sample_grpc_service.Proto.Kept.{named}
use sample_grpc_service.Proto.Json.Laws.{
  proto_laws, value_or-default, array_either-fill, message_either-fill, scalar_codec,
}
use sample_grpc_service.Descriptor.FieldOptionsCType
use sample_grpc_service.Descriptor.FieldOptionsJsType
use sample_grpc_service.Descriptor.FieldOptionsOptionRetention
use sample_grpc_service.Descriptor.FieldOptionsOptionTargetType
use sample_grpc_service.Descriptor.FieldOptionsEditionDefault
use sample_grpc_service.Descriptor.FeatureSet
use sample_grpc_service.Descriptor.FieldOptionsFeatureSupport
use sample_grpc_service.Descriptor.UninterpretedOption
use sample_grpc_service.Descriptor.FieldOptions.{
  FieldOptions, FieldOptionsPartial, create_base, from_json, to_json, from_partial, fill,
}
use sample_grpc_service.Descriptor.FieldOptions.RoundTrip.{Fits}
use mathlib.Core.Option

pub json_codec :
    (e : Runtime) → RuntimeLaws e → JsonCodec (to_json e) (from_json e) fill (Fits e named)
unfolding from_json to_json fill
json_codec e laws = record {
  from-to = λ m fits. simp (
    proto_laws,
    value_or-default (FieldOptionsCType.Json.scalar-kept "0") m.ctype fits.0,
    value_or-default (FieldOptionsJsType.Json.scalar-kept "0") m.jstype fits.1,
    value_or-default (FieldOptionsOptionRetention.Json.scalar-kept "0") m.retention fits.2,
    array-fill (scalar_codec FieldOptionsOptionTargetType.Json.scalar-agrees) m.targets fits.3,
    array_either-fill (FieldOptionsEditionDefault.json_codec e laws) m.edition_defaults fits.4,
    message-fill (FeatureSet.json_codec e laws) m.features fits.5,
    message_either-fill (FieldOptionsFeatureSupport.json_codec e laws) m.feature_support fits.6,
    array_either-fill (UninterpretedOption.Json.json_codec e laws) m.uninterpreted_option fits.7,
  );
  shown = λ m. is_set-obj _;
}

-- All of a message, as an argument of `fromPartial`.
abbrev pub whole : FieldOptions → FieldOptionsPartial
whole m = record {
  ctype = m.ctype;
  packed = m.packed;
  jstype = m.jstype;
  lazy = m.lazy;
  unverified_lazy = m.unverified_lazy;
  deprecated = m.deprecated;
  weak = m.weak;
  debug_redact = m.debug_redact;
  retention = m.retention;
  targets = some m.targets;
  edition_defaults = some (map FieldOptionsEditionDefault.whole m.edition_defaults);
  features = Option.map FeatureSet.whole m.features;
  feature_support = Option.map FieldOptionsFeatureSupport.whole m.feature_support;
  uninterpreted_option = some (map UninterpretedOption.Json.whole m.uninterpreted_option);
}

pub fills : Fills whole from_partial fill
unfolding from_partial create_base fill
fills = record {
  fills = λ m.
      rw
        (
          map-fill FieldOptionsEditionDefault.fills m.edition_defaults,
          Option-map-fill FeatureSet.fills m.features,
          Option-map-fill FieldOptionsFeatureSupport.fills m.feature_support,
          map-fill UninterpretedOption.Json.fills m.uninterpreted_option,
        )
        refl;
}
