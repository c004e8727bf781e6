-- ===== src/Descriptor/FieldOptions.antt =====
-- `FieldOptions` of web/src/generated/google/protobuf/descriptor.ts: the message and its
-- generated functions.
pub mod RoundTrip
pub mod Json
use sample_grpc_service.Prelude.{
  ℕ, String, Bool, false, Option, none, some, List, [], ◌∷◌, ◌++◌, map, ◌/◌, ◌==◌, if◌then◌else◌,
  true,
}
use sample_grpc_service.Prelude.Outcome.{Outcome, ok, ◌>>=◌}
use sample_grpc_service.Partial.{get_or}
use sample_grpc_service.Wire.{
  Field, on_case, ◌▸◌, ◌◃◌, write_message?, write_messages, decode_with, read_message,
}
use sample_grpc_service.Js.{Js, obj, get_prop?, set_message?, set_array, message_field, array_field}
use sample_grpc_service.Proto.{
  Runtime, In, Out, flag, int32, write_or, write_each, read, read_packed, on_either,
}
use sample_grpc_service.Proto.Json.{
  no_props, js_flag, field_or, field_either, set_or, array_either, message_field_either,
}
use sample_grpc_service.Descriptor.FieldOptionsCType
use sample_grpc_service.Descriptor.FieldOptionsJsType
use sample_grpc_service.Descriptor.FieldOptionsOptionRetention
use sample_grpc_service.Descriptor.FieldOptionsOptionTargetType
use sample_grpc_service.Descriptor.FieldOptionsEditionDefault
use sample_grpc_service.Descriptor.FieldOptionsEditionDefault.{
  FieldOptionsEditionDefault, FieldOptionsEditionDefaultPartial,
}
use sample_grpc_service.Descriptor.FeatureSet
use sample_grpc_service.Descriptor.FeatureSet.{FeatureSet, FeatureSetPartial}
use sample_grpc_service.Descriptor.FieldOptionsFeatureSupport
use sample_grpc_service.Descriptor.FieldOptionsFeatureSupport.{
  FieldOptionsFeatureSupport, FieldOptionsFeatureSupportPartial,
}
use sample_grpc_service.Descriptor.UninterpretedOption
use sample_grpc_service.Descriptor.UninterpretedOption.{
  UninterpretedOption, UninterpretedOptionPartial,
}
use mathlib.Core.Option

pub record FieldOptions : Type 0 where
  pub ctype : Option String
  pub packed : Option Bool
  pub jstype : Option String
  pub lazy : Option Bool
  pub unverified_lazy : Option Bool
  pub deprecated : Option Bool
  pub weak : Option Bool
  pub debug_redact : Option Bool
  pub retention : Option String
  pub targets : List String
  pub edition_defaults : List FieldOptionsEditionDefault
  pub features : Option FeatureSet
  pub feature_support : Option FieldOptionsFeatureSupport
  pub uninterpreted_option : List UninterpretedOption

-- What `fromPartial` takes: each property may be missing, `null` or `undefined`.
pub record FieldOptionsPartial : Type 0 where
  pub ctype : Option String
  pub packed : Option Bool
  pub jstype : Option String
  pub lazy : Option Bool
  pub unverified_lazy : Option Bool
  pub deprecated : Option Bool
  pub weak : Option Bool
  pub debug_redact : Option Bool
  pub retention : Option String
  pub targets : Option (List String)
  pub edition_defaults : Option (List FieldOptionsEditionDefaultPartial)
  pub features : Option FeatureSetPartial
  pub feature_support : Option FieldOptionsFeatureSupportPartial
  pub uninterpreted_option : Option (List UninterpretedOptionPartial)

unfoldable pub create_base : FieldOptions
create_base = record {
  ctype = some "0";
  packed = some false;
  jstype = some "0";
  lazy = some false;
  unverified_lazy = some false;
  deprecated = some false;
  weak = some false;
  debug_redact = some false;
  retention = some "0";
  targets = [];
  edition_defaults = [];
  features = none;
  feature_support = none;
  uninterpreted_option = [];
}

module _ (e : Runtime) where
  unfoldable pub encode : FieldOptions → Out e → Out e
  encode m x =
      x
      ▸ write_or e (int32 e) 8 "0" m.ctype
      ▸ write_or e (flag e) 16 false m.packed
      ▸ write_or e (int32 e) 48 "0" m.jstype
      ▸ write_or e (flag e) 40 false m.lazy
      ▸ write_or e (flag e) 120 false m.unverified_lazy
      ▸ write_or e (flag e) 24 false m.deprecated
      ▸ write_or e (flag e) 80 false m.weak
      ▸ write_or e (flag e) 128 false m.debug_redact
      ▸ write_or e (int32 e) 136 "0" m.retention
      ▸ write_each e (int32 e) 152 m.targets
      ▸ write_messages e.wire (FieldOptionsEditionDefault.encode e) 162 m.edition_defaults
      ▸ write_message? e.wire (FeatureSet.encode e) 170 m.features
      ▸ write_message? e.wire (FieldOptionsFeatureSupport.encode e) 178 m.feature_support
      ▸ write_messages e.wire (UninterpretedOption.encode e) 7994 m.uninterpreted_option

  -- The `switch` of `decode`.
  unfoldable pub field : Field e.wire FieldOptions
  field self tag m r =
      on_case 1 8 tag (read e (int32 e) r (λ v. record m { ctype = some v }))
      ◃ on_case 2 16 tag (read e (flag e) r (λ v. record m { packed = some v }))
      ◃ on_case 6 48 tag (read e (int32 e) r (λ v. record m { jstype = some v }))
      ◃ on_case 5 40 tag (read e (flag e) r (λ v. record m { lazy = some v }))
      ◃ on_case 15 120 tag (read e (flag e) r (λ v. record m { unverified_lazy = some v }))
      ◃ on_case 3 24 tag (read e (flag e) r (λ v. record m { deprecated = some v }))
      ◃ on_case 10 80 tag (read e (flag e) r (λ v. record m { weak = some v }))
      ◃ on_case 16 128 tag (read e (flag e) r (λ v. record m { debug_redact = some v }))
      ◃ on_case 17 136 tag (read e (int32 e) r (λ v. record m { retention = some v }))
      ◃ on_either 19 152 154 tag
          (read e (int32 e) r (λ v. record m { targets = m.targets ++ (v ∷ []) }))
          (read_packed e (int32 e) r m (λ v k. record k { targets = k.targets ++ (v ∷ []) }))
      ◃ on_case 20 162 tag (
          read_message e.wire (FieldOptionsEditionDefault.decode e) r
            (λ v. record m { edition_defaults = m.edition_defaults ++ (v ∷ []) }))
      ◃ on_case 21 170 tag
          (read_message e.wire (FeatureSet.decode e) r (λ v. record m { features = some v }))
      ◃ on_case 22 178 tag (
          read_message e.wire (FieldOptionsFeatureSupport.decode e) r
            (λ v. record m { feature_support = some v }))
      ◃ on_case 999 7994 tag (
          read_message e.wire (UninterpretedOption.decode e) r
            (λ v. record m { uninterpreted_option = m.uninterpreted_option ++ (v ∷ []) }))
      ◃ none

  unfoldable pub decode : In e → Option ℕ → Outcome (FieldOptions × In e)
  unfolding create_base
  decode r len = decode_with e.wire field create_base r len

  unfoldable pub from_json : Js → Outcome FieldOptions
  from_json o = do
    ctype' ← field_or FieldOptionsCType.scalar "ctype" "0" o
    packed' ← field_or js_flag "packed" false o
    jstype' ← field_or FieldOptionsJsType.scalar "jstype" "0" o
    lazy' ← field_or js_flag "lazy" false o
    unverified_lazy' ← field_either js_flag "unverifiedLazy" "unverified_lazy" false o
    deprecated' ← field_or js_flag "deprecated" false o
    weak' ← field_or js_flag "weak" false o
    debug_redact' ← field_either js_flag "debugRedact" "debug_redact" false o
    retention' ← field_or FieldOptionsOptionRetention.scalar "retention" "0" o
    targets' ← array_field FieldOptionsOptionTargetType.scalar.from (get_prop? "targets" o)
    edition_defaults' ←
        array_either (FieldOptionsEditionDefault.from_json e) (get_prop? "editionDefaults" o)
          (get_prop? "edition_defaults" o)
    features' ← message_field (FeatureSet.from_json e) "features" o
    feature_support' ←
        message_field_either (FieldOptionsFeatureSupport.from_json e) "featureSupport"
          "feature_support" o
    uninterpreted_option' ←
        array_either (UninterpretedOption.from_json e) (get_prop? "uninterpretedOption" o)
          (get_prop? "uninterpreted_option" o)
    ok (record {
      ctype = ctype';
      packed = packed';
      jstype = jstype';
      lazy = lazy';
      unverified_lazy = unverified_lazy';
      deprecated = deprecated';
      weak = weak';
      debug_redact = debug_redact';
      retention = retention';
      targets = targets';
      edition_defaults = edition_defaults';
      features = features';
      feature_support = feature_support';
      uninterpreted_option = uninterpreted_option';
    })

  unfoldable pub to_json : FieldOptions → Js
  to_json m = obj (
      no_props
      ▸ set_or FieldOptionsCType.scalar "ctype" "0" m.ctype
      ▸ set_or js_flag "packed" false m.packed
      ▸ set_or FieldOptionsJsType.scalar "jstype" "0" m.jstype
      ▸ set_or js_flag "lazy" false m.lazy
      ▸ set_or js_flag "unverifiedLazy" false m.unverified_lazy
      ▸ set_or js_flag "deprecated" false m.deprecated
      ▸ set_or js_flag "weak" false m.weak
      ▸ set_or js_flag "debugRedact" false m.debug_redact
      ▸ set_or FieldOptionsOptionRetention.scalar "retention" "0" m.retention
      ▸ set_array "targets" FieldOptionsOptionTargetType.scalar.to m.targets
      ▸ set_array "editionDefaults" (FieldOptionsEditionDefault.to_json e) m.edition_defaults
      ▸ set_message? "features" (FeatureSet.to_json e) m.features
      ▸ set_message? "featureSupport" (FieldOptionsFeatureSupport.to_json e) m.feature_support
      ▸ set_array "uninterpretedOption" (UninterpretedOption.to_json e) m.uninterpreted_option)

unfoldable pub from_partial : FieldOptionsPartial → FieldOptions
unfolding create_base
from_partial o = record create_base {
  ctype = some (get_or "0" o.ctype);
  packed = some (get_or false o.packed);
  jstype = some (get_or "0" o.jstype);
  lazy = some (get_or false o.lazy);
  unverified_lazy = some (get_or false o.unverified_lazy);
  deprecated = some (get_or false o.deprecated);
  weak = some (get_or false o.weak);
  debug_redact = some (get_or false o.debug_redact);
  retention = some (get_or "0" o.retention);
  targets = get_or [] (Option.map (map (λ v. v)) o.targets);
  edition_defaults =
      get_or [] (Option.map (map FieldOptionsEditionDefault.from_partial) o.edition_defaults);
  features = Option.map FeatureSet.from_partial o.features;
  feature_support = Option.map FieldOptionsFeatureSupport.from_partial o.feature_support;
  uninterpreted_option =
      get_or [] (Option.map (map UninterpretedOption.from_partial) o.uninterpreted_option);
}

abbrev nothing : FieldOptionsPartial
nothing = record {
  ctype = none;
  packed = none;
  jstype = none;
  lazy = none;
  unverified_lazy = none;
  deprecated = none;
  weak = none;
  debug_redact = none;
  retention = none;
  targets = none;
  edition_defaults = none;
  features = none;
  feature_support = none;
  uninterpreted_option = none;
}

-- `create(base)`; `base ?? {}`
unfoldable pub create : Option FieldOptionsPartial → FieldOptions
unfolding from_partial
create base = from_partial (get_or nothing base)

-- The message with its missing values at their defaults.
unfoldable pub fill : FieldOptions → FieldOptions
fill m = record {
  ctype = some (get_or "0" m.ctype);
  packed = some (get_or false m.packed);
  jstype = some (get_or "0" m.jstype);
  lazy = some (get_or false m.lazy);
  unverified_lazy = some (get_or false m.unverified_lazy);
  deprecated = some (get_or false m.deprecated);
  weak = some (get_or false m.weak);
  debug_redact = some (get_or false m.debug_redact);
  retention = some (get_or "0" m.retention);
  targets = map (λ v. v) m.targets;
  edition_defaults = map FieldOptionsEditionDefault.fill m.edition_defaults;
  features = Option.map FeatureSet.fill m.features;
  feature_support = Option.map FieldOptionsFeatureSupport.fill m.feature_support;
  uninterpreted_option = map UninterpretedOption.fill m.uninterpreted_option;
}
