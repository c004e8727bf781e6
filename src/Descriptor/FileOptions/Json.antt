-- ===== src/Descriptor/FileOptions/Json.antt =====
-- The JSON and the partials of FileOptions in
-- web/src/generated/google/protobuf/descriptor.ts.
use sample_grpc_service.Prelude.{refl, some, map}
use sample_grpc_service.Partial.{Fills, map-fill, Option-map-fill}
use sample_grpc_service.Js.Laws.{is_set-obj}
use sample_grpc_service.Js.Codec.{JsonCodec, message-fill}
use sample_grpc_service.Proto.{Runtime}
use sample_grpc_service.Proto.Laws.{RuntimeLaws}
use sample_grpc_service.Proto.Kept.{named}
use sample_grpc_service.Proto.Json.Laws.{proto_laws, either_or-default, array_either-fill}
use sample_grpc_service.Descriptor.FileOptionsOptimizeMode
use sample_grpc_service.Descriptor.FeatureSet
use sample_grpc_service.Descriptor.UninterpretedOption
use sample_grpc_service.Descriptor.FileOptions.{
  FileOptions, FileOptionsPartial, create_base, from_json, to_json, from_partial, fill,
}
use sample_grpc_service.Descriptor.FileOptions.RoundTrip.{Fits}
use mathlib.Core.Option

pub json_codec :
    (e : Runtime) → RuntimeLaws e → JsonCodec (to_json e) (from_json e) fill (Fits e named)
unfolding from_json to_json fill
json_codec e laws = record {
  from-to = λ m fits. simp (
    proto_laws,
    either_or-default (FileOptionsOptimizeMode.Json.scalar-kept "1") m.optimize_for fits.0,
    message-fill (FeatureSet.json_codec e laws) m.features fits.1,
    array_either-fill (UninterpretedOption.Json.json_codec e laws) m.uninterpreted_option fits.2,
  );
  shown = λ m. is_set-obj _;
}

-- All of a message, as an argument of `fromPartial`.
abbrev pub whole : FileOptions → FileOptionsPartial
whole m = record {
  java_package = m.java_package;
  java_outer_classname = m.java_outer_classname;
  java_multiple_files = m.java_multiple_files;
  java_generate_equals_and_hash = m.java_generate_equals_and_hash;
  java_string_check_utf8 = m.java_string_check_utf8;
  optimize_for = m.optimize_for;
  go_package = m.go_package;
  cc_generic_services = m.cc_generic_services;
  java_generic_services = m.java_generic_services;
  py_generic_services = m.py_generic_services;
  deprecated = m.deprecated;
  cc_enable_arenas = m.cc_enable_arenas;
  objc_class_prefix = m.objc_class_prefix;
  csharp_namespace = m.csharp_namespace;
  swift_prefix = m.swift_prefix;
  php_class_prefix = m.php_class_prefix;
  php_namespace = m.php_namespace;
  php_metadata_namespace = m.php_metadata_namespace;
  ruby_package = m.ruby_package;
  features = Option.map FeatureSet.whole m.features;
  uninterpreted_option = some (map UninterpretedOption.Json.whole m.uninterpreted_option);
}

pub fills : Fills whole from_partial fill
unfolding from_partial create_base fill
fills = record {
  fills = λ m.
      rw
        (
          Option-map-fill FeatureSet.fills m.features,
          map-fill UninterpretedOption.Json.fills m.uninterpreted_option,
        )
        refl;
}
