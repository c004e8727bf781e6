-- ===== src/Descriptor/MessageOptions.antt =====
-- `MessageOptions` of web/src/generated/google/protobuf/descriptor.ts: the message and its
-- generated functions.
pub mod RoundTrip
pub mod Json
use sample_grpc_service.Prelude.{
  ℕ, Bool, false, Option, none, some, List, [], ◌∷◌, ◌++◌, map, ◌/◌, ◌==◌, if◌then◌else◌, true,
}
use sample_grpc_service.Prelude.Outcome.{Outcome, ok, ◌>>=◌}
use sample_grpc_service.Partial.{get_or}
use sample_grpc_service.Wire.{
  Field, on_case, ◌▸◌, ◌◃◌, write_message?, write_messages, decode_with, read_message,
}
use sample_grpc_service.Js.{Js, obj, get_prop?, set_message?, set_array, message_field}
use sample_grpc_service.Proto.{Runtime, In, Out, flag, write_or, read}
use sample_grpc_service.Proto.Json.{no_props, js_flag, field_or, field_either, set_or, array_either}
use sample_grpc_service.Descriptor.FeatureSet
use sample_grpc_service.Descriptor.FeatureSet.{FeatureSet, FeatureSetPartial}
use sample_grpc_service.Descriptor.UninterpretedOption
use sample_grpc_service.Descriptor.UninterpretedOption.{
  UninterpretedOption, UninterpretedOptionPartial,
}
use mathlib.Core.Option

pub record MessageOptions : Type 0 where
  pub message_set_wire_format : Option Bool
  pub no_standard_descriptor_accessor : Option Bool
  pub deprecated : Option Bool
  pub map_entry : Option Bool
  pub deprecated_legacy_json_field_conflicts : Option Bool
  pub features : Option FeatureSet
  pub uninterpreted_option : List UninterpretedOption

-- What `fromPartial` takes: each property may be missing, `null` or `undefined`.
pub record MessageOptionsPartial : Type 0 where
  pub message_set_wire_format : Option Bool
  pub no_standard_descriptor_accessor : Option Bool
  pub deprecated : Option Bool
  pub map_entry : Option Bool
  pub deprecated_legacy_json_field_conflicts : Option Bool
  pub features : Option FeatureSetPartial
  pub uninterpreted_option : Option (List UninterpretedOptionPartial)

unfoldable pub create_base : MessageOptions
create_base = record {
  message_set_wire_format = some false;
  no_standard_descriptor_accessor = some false;
  deprecated = some false;
  map_entry = some false;
  deprecated_legacy_json_field_conflicts = some false;
  features = none;
  uninterpreted_option = [];
}

module _ (e : Runtime) where
  unfoldable pub encode : MessageOptions → Out e → Out e
  encode m x =
      x
      ▸ write_or e (flag e) 8 false m.message_set_wire_format
      ▸ write_or e (flag e) 16 false m.no_standard_descriptor_accessor
      ▸ write_or e (flag e) 24 false m.deprecated
      ▸ write_or e (flag e) 56 false m.map_entry
      ▸ write_or e (flag e) 88 false m.deprecated_legacy_json_field_conflicts
      ▸ write_message? e.wire (FeatureSet.encode e) 98 m.features
      ▸ write_messages e.wire (UninterpretedOption.encode e) 7994 m.uninterpreted_option

  -- The `switch` of `decode`.
  unfoldable pub field : Field e.wire MessageOptions
  field self tag m r =
      on_case 1 8 tag (read e (flag e) r (λ v. record m { message_set_wire_format = some v }))
      ◃ on_case 2 16 tag
          (read e (flag e) r (λ v. record m { no_standard_descriptor_accessor = some v }))
      ◃ on_case 3 24 tag (read e (flag e) r (λ v. record m { deprecated = some v }))
      ◃ on_case 7 56 tag (read e (flag e) r (λ v. record m { map_entry = some v }))
      ◃ on_case 11 88 tag
          (read e (flag e) r (λ v. record m { deprecated_legacy_json_field_conflicts = some v }))
      ◃ on_case 12 98 tag
          (read_message e.wire (FeatureSet.decode e) r (λ v. record m { features = some v }))
      ◃ on_case 999 7994 tag (
          read_message e.wire (UninterpretedOption.decode e) r
            (λ v. record m { uninterpreted_option = m.uninterpreted_option ++ (v ∷ []) }))
      ◃ none

  unfoldable pub decode : In e → Option ℕ → Outcome (MessageOptions × In e)
  unfolding create_base
  decode r len = decode_with e.wire field create_base r len

  unfoldable pub from_json : Js → Outcome MessageOptions
  from_json o = do
    message_set_wire_format' ←
        field_either js_flag "messageSetWireFormat" "message_set_wire_format" false o
    no_standard_descriptor_accessor' ←
        field_either js_flag "noStandardDescriptorAccessor" "no_standard_descriptor_accessor" false
          o
    deprecated' ← field_or js_flag "deprecated" false o
    map_entry' ← field_either js_flag "mapEntry" "map_entry" false o
    deprecated_legacy_json_field_conflicts' ←
        field_either js_flag "deprecatedLegacyJsonFieldConflicts"
          "deprecated_legacy_json_field_conflicts" false o
    features' ← message_field (FeatureSet.from_json e) "features" o
    uninterpreted_option' ←
        array_either (UninterpretedOption.from_json e) (get_prop? "uninterpretedOption" o)
          (get_prop? "uninterpreted_option" o)
    ok (record {
      message_set_wire_format = message_set_wire_format';
      no_standard_descriptor_accessor = no_standard_descriptor_accessor';
      deprecated = deprecated';
      map_entry = map_entry';
      deprecated_legacy_json_field_conflicts = deprecated_legacy_json_field_conflicts';
      features = features';
      uninterpreted_option = uninterpreted_option';
    })

  unfoldable pub to_json : MessageOptions → Js
  to_json m = obj (
      no_props
      ▸ set_or js_flag "messageSetWireFormat" false m.message_set_wire_format
      ▸ set_or js_flag "noStandardDescriptorAccessor" false m.no_standard_descriptor_accessor
      ▸ set_or js_flag "deprecated" false m.deprecated
      ▸ set_or js_flag "mapEntry" false m.map_entry
      ▸ set_or js_flag "deprecatedLegacyJsonFieldConflicts" false
          m.deprecated_legacy_json_field_conflicts
      ▸ set_message? "features" (FeatureSet.to_json e) m.features
      ▸ set_array "uninterpretedOption" (UninterpretedOption.to_json e) m.uninterpreted_option)

unfoldable pub from_partial : MessageOptionsPartial → MessageOptions
unfolding create_base
from_partial o = record create_base {
  message_set_wire_format = some (get_or false o.message_set_wire_format);
  no_standard_descriptor_accessor = some (get_or false o.no_standard_descriptor_accessor);
  deprecated = some (get_or false o.deprecated);
  map_entry = some (get_or false o.map_entry);
  deprecated_legacy_json_field_conflicts =
      some (get_or false o.deprecated_legacy_json_field_conflicts);
  features = Option.map FeatureSet.from_partial o.features;
  uninterpreted_option =
      get_or [] (Option.map (map UninterpretedOption.from_partial) o.uninterpreted_option);
}

abbrev nothing : MessageOptionsPartial
nothing = record {
  message_set_wire_format = none;
  no_standard_descriptor_accessor = none;
  deprecated = none;
  map_entry = none;
  deprecated_legacy_json_field_conflicts = none;
  features = none;
  uninterpreted_option = none;
}

-- `create(base)`; `base ?? {}`
unfoldable pub create : Option MessageOptionsPartial → MessageOptions
unfolding from_partial
create base = from_partial (get_or nothing base)

-- The message with its missing values at their defaults.
unfoldable pub fill : MessageOptions → MessageOptions
fill m = record {
  message_set_wire_format = some (get_or false m.message_set_wire_format);
  no_standard_descriptor_accessor = some (get_or false m.no_standard_descriptor_accessor);
  deprecated = some (get_or false m.deprecated);
  map_entry = some (get_or false m.map_entry);
  deprecated_legacy_json_field_conflicts =
      some (get_or false m.deprecated_legacy_json_field_conflicts);
  features = Option.map FeatureSet.fill m.features;
  uninterpreted_option = map UninterpretedOption.fill m.uninterpreted_option;
}
