-- ===== src/Descriptor/FileOptions.antt =====
-- `FileOptions` of web/src/generated/google/protobuf/descriptor.ts: the message and its
-- generated functions.
pub mod RoundTrip
pub mod Json
use sample_grpc_service.Prelude.{
  ℕ, String, Bool, true, false, Option, none, some, List, [], ◌∷◌, ◌++◌, map, ◌/◌, ◌==◌,
  if◌then◌else◌,
}
use sample_grpc_service.Prelude.Outcome.{Outcome, ok, ◌>>=◌}
use sample_grpc_service.Partial.{get_or}
use sample_grpc_service.Wire.{
  Field, on_case, ◌▸◌, ◌◃◌, write_message?, write_messages, decode_with, read_message,
}
use sample_grpc_service.Js.{Js, obj, get_prop?, set_message?, set_array, message_field}
use sample_grpc_service.Proto.{Runtime, In, Out, text, flag, int32, write_or, read}
use sample_grpc_service.Proto.Json.{
  no_props, js_text, js_flag, field_or, field_either, set_or, array_either,
}
use sample_grpc_service.Descriptor.FileOptionsOptimizeMode
use sample_grpc_service.Descriptor.FeatureSet
use sample_grpc_service.Descriptor.FeatureSet.{FeatureSet, FeatureSetPartial}
use sample_grpc_service.Descriptor.UninterpretedOption
use sample_grpc_service.Descriptor.UninterpretedOption.{
  UninterpretedOption, UninterpretedOptionPartial,
}
use mathlib.Core.Option

pub record FileOptions : Type 0 where
  pub java_package : Option String
  pub java_outer_classname : Option String
  pub java_multiple_files : Option Bool
  pub java_generate_equals_and_hash : Option Bool
  pub java_string_check_utf8 : Option Bool
  pub optimize_for : Option String
  pub go_package : Option String
  pub cc_generic_services : Option Bool
  pub java_generic_services : Option Bool
  pub py_generic_services : Option Bool
  pub deprecated : Option Bool
  pub cc_enable_arenas : Option Bool
  pub objc_class_prefix : Option String
  pub csharp_namespace : Option String
  pub swift_prefix : Option String
  pub php_class_prefix : Option String
  pub php_namespace : Option String
  pub php_metadata_namespace : Option String
  pub ruby_package : Option String
  pub features : Option FeatureSet
  pub uninterpreted_option : List UninterpretedOption

-- What `fromPartial` takes: each property may be missing, `null` or `undefined`.
pub record FileOptionsPartial : Type 0 where
  pub java_package : Option String
  pub java_outer_classname : Option String
  pub java_multiple_files : Option Bool
  pub java_generate_equals_and_hash : Option Bool
  pub java_string_check_utf8 : Option Bool
  pub optimize_for : Option String
  pub go_package : Option String
  pub cc_generic_services : Option Bool
  pub java_generic_services : Option Bool
  pub py_generic_services : Option Bool
  pub deprecated : Option Bool
  pub cc_enable_arenas : Option Bool
  pub objc_class_prefix : Option String
  pub csharp_namespace : Option String
  pub swift_prefix : Option String
  pub php_class_prefix : Option String
  pub php_namespace : Option String
  pub php_metadata_namespace : Option String
  pub ruby_package : Option String
  pub features : Option FeatureSetPartial
  pub uninterpreted_option : Option (List UninterpretedOptionPartial)

unfoldable pub create_base : FileOptions
create_base = record {
  java_package = some "";
  java_outer_classname = some "";
  java_multiple_files = some false;
  java_generate_equals_and_hash = some false;
  java_string_check_utf8 = some false;
  optimize_for = some "1";
  go_package = some "";
  cc_generic_services = some false;
  java_generic_services = some false;
  py_generic_services = some false;
  deprecated = some false;
  cc_enable_arenas = some true;
  objc_class_prefix = some "";
  csharp_namespace = some "";
  swift_prefix = some "";
  php_class_prefix = some "";
  php_namespace = some "";
  php_metadata_namespace = some "";
  ruby_package = some "";
  features = none;
  uninterpreted_option = [];
}

module _ (e : Runtime) where
  unfoldable pub encode : FileOptions → Out e → Out e
  encode m x =
      x
      ▸ write_or e (text e) 10 "" m.java_package
      ▸ write_or e (text e) 66 "" m.java_outer_classname
      ▸ write_or e (flag e) 80 false m.java_multiple_files
      ▸ write_or e (flag e) 160 false m.java_generate_equals_and_hash
      ▸ write_or e (flag e) 216 false m.java_string_check_utf8
      ▸ write_or e (int32 e) 72 "1" m.optimize_for
      ▸ write_or e (text e) 90 "" m.go_package
      ▸ write_or e (flag e) 128 false m.cc_generic_services
      ▸ write_or e (flag e) 136 false m.java_generic_services
      ▸ write_or e (flag e) 144 false m.py_generic_services
      ▸ write_or e (flag e) 184 false m.deprecated
      ▸ write_or e (flag e) 248 true m.cc_enable_arenas
      ▸ write_or e (text e) 290 "" m.objc_class_prefix
      ▸ write_or e (text e) 298 "" m.csharp_namespace
      ▸ write_or e (text e) 314 "" m.swift_prefix
      ▸ write_or e (text e) 322 "" m.php_class_prefix
      ▸ write_or e (text e) 330 "" m.php_namespace
      ▸ write_or e (text e) 354 "" m.php_metadata_namespace
      ▸ write_or e (text e) 362 "" m.ruby_package
      ▸ write_message? e.wire (FeatureSet.encode e) 402 m.features
      ▸ write_messages e.wire (UninterpretedOption.encode e) 7994 m.uninterpreted_option

  -- The `switch` of `decode`.
  unfoldable pub field : Field e.wire FileOptions
  field self tag m r =
      on_case 1 10 tag (read e (text e) r (λ v. record m { java_package = some v }))
      ◃ on_case 8 66 tag (read e (text e) r (λ v. record m { java_outer_classname = some v }))
      ◃ on_case 10 80 tag (read e (flag e) r (λ v. record m { java_multiple_files = some v }))
      ◃ on_case 20 160 tag
          (read e (flag e) r (λ v. record m { java_generate_equals_and_hash = some v }))
      ◃ on_case 27 216 tag (read e (flag e) r (λ v. record m { java_string_check_utf8 = some v }))
      ◃ on_case 9 72 tag (read e (int32 e) r (λ v. record m { optimize_for = some v }))
      ◃ on_case 11 90 tag (read e (text e) r (λ v. record m { go_package = some v }))
      ◃ on_case 16 128 tag (read e (flag e) r (λ v. record m { cc_generic_services = some v }))
      ◃ on_case 17 136 tag (read e (flag e) r (λ v. record m { java_generic_services = some v }))
      ◃ on_case 18 144 tag (read e (flag e) r (λ v. record m { py_generic_services = some v }))
      ◃ on_case 23 184 tag (read e (flag e) r (λ v. record m { deprecated = some v }))
      ◃ on_case 31 248 tag (read e (flag e) r (λ v. record m { cc_enable_arenas = some v }))
      ◃ on_case 36 290 tag (read e (text e) r (λ v. record m { objc_class_prefix = some v }))
      ◃ on_case 37 298 tag (read e (text e) r (λ v. record m { csharp_namespace = some v }))
      ◃ on_case 39 314 tag (read e (text e) r (λ v. record m { swift_prefix = some v }))
      ◃ on_case 40 322 tag (read e (text e) r (λ v. record m { php_class_prefix = some v }))
      ◃ on_case 41 330 tag (read e (text e) r (λ v. record m { php_namespace = some v }))
      ◃ on_case 44 354 tag (read e (text e) r (λ v. record m { php_metadata_namespace = some v }))
      ◃ on_case 45 362 tag (read e (text e) r (λ v. record m { ruby_package = some v }))
      ◃ on_case 50 402 tag
          (read_message e.wire (FeatureSet.decode e) r (λ v. record m { features = some v }))
      ◃ on_case 999 7994 tag (
          read_message e.wire (UninterpretedOption.decode e) r
            (λ v. record m { uninterpreted_option = m.uninterpreted_option ++ (v ∷ []) }))
      ◃ none

  unfoldable pub decode : In e → Option ℕ → Outcome (FileOptions × In e)
  unfolding create_base
  decode r len = decode_with e.wire field create_base r len

  unfoldable pub from_json : Js → Outcome FileOptions
  from_json o = do
    java_package' ← field_either js_text "javaPackage" "java_package" "" o
    java_outer_classname' ← field_either js_text "javaOuterClassname" "java_outer_classname" "" o
    java_multiple_files' ← field_either js_flag "javaMultipleFiles" "java_multiple_files" false o
    java_generate_equals_and_hash' ←
        field_either js_flag "javaGenerateEqualsAndHash" "java_generate_equals_and_hash" false o
    java_string_check_utf8' ←
        field_either js_flag "javaStringCheckUtf8" "java_string_check_utf8" false o
    optimize_for' ← field_either FileOptionsOptimizeMode.scalar "optimizeFor" "optimize_for" "1" o
    go_package' ← field_either js_text "goPackage" "go_package" "" o
    cc_generic_services' ← field_either js_flag "ccGenericServices" "cc_generic_services" false o
    java_generic_services' ←
        field_either js_flag "javaGenericServices" "java_generic_services" false o
    py_generic_services' ← field_either js_flag "pyGenericServices" "py_generic_services" false o
    deprecated' ← field_or js_flag "deprecated" false o
    cc_enable_arenas' ← field_either js_flag "ccEnableArenas" "cc_enable_arenas" true o
    objc_class_prefix' ← field_either js_text "objcClassPrefix" "objc_class_prefix" "" o
    csharp_namespace' ← field_either js_text "csharpNamespace" "csharp_namespace" "" o
    swift_prefix' ← field_either js_text "swiftPrefix" "swift_prefix" "" o
    php_class_prefix' ← field_either js_text "phpClassPrefix" "php_class_prefix" "" o
    php_namespace' ← field_either js_text "phpNamespace" "php_namespace" "" o
    php_metadata_namespace' ←
        field_either js_text "phpMetadataNamespace" "php_metadata_namespace" "" o
    ruby_package' ← field_either js_text "rubyPackage" "ruby_package" "" o
    features' ← message_field (FeatureSet.from_json e) "features" o
    uninterpreted_option' ←
        array_either (UninterpretedOption.from_json e) (get_prop? "uninterpretedOption" o)
          (get_prop? "uninterpreted_option" o)
    ok (record {
      java_package = java_package';
      java_outer_classname = java_outer_classname';
      java_multiple_files = java_multiple_files';
      java_generate_equals_and_hash = java_generate_equals_and_hash';
      java_string_check_utf8 = java_string_check_utf8';
      optimize_for = optimize_for';
      go_package = go_package';
      cc_generic_services = cc_generic_services';
      java_generic_services = java_generic_services';
      py_generic_services = py_generic_services';
      deprecated = deprecated';
      cc_enable_arenas = cc_enable_arenas';
      objc_class_prefix = objc_class_prefix';
      csharp_namespace = csharp_namespace';
      swift_prefix = swift_prefix';
      php_class_prefix = php_class_prefix';
      php_namespace = php_namespace';
      php_metadata_namespace = php_metadata_namespace';
      ruby_package = ruby_package';
      features = features';
      uninterpreted_option = uninterpreted_option';
    })

  unfoldable pub to_json : FileOptions → Js
  to_json m = obj (
      no_props
      ▸ set_or js_text "javaPackage" "" m.java_package
      ▸ set_or js_text "javaOuterClassname" "" m.java_outer_classname
      ▸ set_or js_flag "javaMultipleFiles" false m.java_multiple_files
      ▸ set_or js_flag "javaGenerateEqualsAndHash" false m.java_generate_equals_and_hash
      ▸ set_or js_flag "javaStringCheckUtf8" false m.java_string_check_utf8
      ▸ set_or FileOptionsOptimizeMode.scalar "optimizeFor" "1" m.optimize_for
      ▸ set_or js_text "goPackage" "" m.go_package
      ▸ set_or js_flag "ccGenericServices" false m.cc_generic_services
      ▸ set_or js_flag "javaGenericServices" false m.java_generic_services
      ▸ set_or js_flag "pyGenericServices" false m.py_generic_services
      ▸ set_or js_flag "deprecated" false m.deprecated
      ▸ set_or js_flag "ccEnableArenas" true m.cc_enable_arenas
      ▸ set_or js_text "objcClassPrefix" "" m.objc_class_prefix
      ▸ set_or js_text "csharpNamespace" "" m.csharp_namespace
      ▸ set_or js_text "swiftPrefix" "" m.swift_prefix
      ▸ set_or js_text "phpClassPrefix" "" m.php_class_prefix
      ▸ set_or js_text "phpNamespace" "" m.php_namespace
      ▸ set_or js_text "phpMetadataNamespace" "" m.php_metadata_namespace
      ▸ set_or js_text "rubyPackage" "" m.ruby_package
      ▸ set_message? "features" (FeatureSet.to_json e) m.features
      ▸ set_array "uninterpretedOption" (UninterpretedOption.to_json e) m.uninterpreted_option)

unfoldable pub from_partial : FileOptionsPartial → FileOptions
unfolding create_base
from_partial o = record create_base {
  java_package = some (get_or "" o.java_package);
  java_outer_classname = some (get_or "" o.java_outer_classname);
  java_multiple_files = some (get_or false o.java_multiple_files);
  java_generate_equals_and_hash = some (get_or false o.java_generate_equals_and_hash);
  java_string_check_utf8 = some (get_or false o.java_string_check_utf8);
  optimize_for = some (get_or "1" o.optimize_for);
  go_package = some (get_or "" o.go_package);
  cc_generic_services = some (get_or false o.cc_generic_services);
  java_generic_services = some (get_or false o.java_generic_services);
  py_generic_services = some (get_or false o.py_generic_services);
  deprecated = some (get_or false o.deprecated);
  cc_enable_arenas = some (get_or true o.cc_enable_arenas);
  objc_class_prefix = some (get_or "" o.objc_class_prefix);
  csharp_namespace = some (get_or "" o.csharp_namespace);
  swift_prefix = some (get_or "" o.swift_prefix);
  php_class_prefix = some (get_or "" o.php_class_prefix);
  php_namespace = some (get_or "" o.php_namespace);
  php_metadata_namespace = some (get_or "" o.php_metadata_namespace);
  ruby_package = some (get_or "" o.ruby_package);
  features = Option.map FeatureSet.from_partial o.features;
  uninterpreted_option =
      get_or [] (Option.map (map UninterpretedOption.from_partial) o.uninterpreted_option);
}

abbrev nothing : FileOptionsPartial
nothing = record {
  java_package = none;
  java_outer_classname = none;
  java_multiple_files = none;
  java_generate_equals_and_hash = none;
  java_string_check_utf8 = none;
  optimize_for = none;
  go_package = none;
  cc_generic_services = none;
  java_generic_services = none;
  py_generic_services = none;
  deprecated = none;
  cc_enable_arenas = none;
  objc_class_prefix = none;
  csharp_namespace = none;
  swift_prefix = none;
  php_class_prefix = none;
  php_namespace = none;
  php_metadata_namespace = none;
  ruby_package = none;
  features = none;
  uninterpreted_option = none;
}

-- `create(base)`; `base ?? {}`
unfoldable pub create : Option FileOptionsPartial → FileOptions
unfolding from_partial
create base = from_partial (get_or nothing base)

-- The message with its missing values at their defaults.
unfoldable pub fill : FileOptions → FileOptions
fill m = record {
  java_package = some (get_or "" m.java_package);
  java_outer_classname = some (get_or "" m.java_outer_classname);
  java_multiple_files = some (get_or false m.java_multiple_files);
  java_generate_equals_and_hash = some (get_or false m.java_generate_equals_and_hash);
  java_string_check_utf8 = some (get_or false m.java_string_check_utf8);
  optimize_for = some (get_or "1" m.optimize_for);
  go_package = some (get_or "" m.go_package);
  cc_generic_services = some (get_or false m.cc_generic_services);
  java_generic_services = some (get_or false m.java_generic_services);
  py_generic_services = some (get_or false m.py_generic_services);
  deprecated = some (get_or false m.deprecated);
  cc_enable_arenas = some (get_or true m.cc_enable_arenas);
  objc_class_prefix = some (get_or "" m.objc_class_prefix);
  csharp_namespace = some (get_or "" m.csharp_namespace);
  swift_prefix = some (get_or "" m.swift_prefix);
  php_class_prefix = some (get_or "" m.php_class_prefix);
  php_namespace = some (get_or "" m.php_namespace);
  php_metadata_namespace = some (get_or "" m.php_metadata_namespace);
  ruby_package = some (get_or "" m.ruby_package);
  features = Option.map FeatureSet.fill m.features;
  uninterpreted_option = map UninterpretedOption.fill m.uninterpreted_option;
}
