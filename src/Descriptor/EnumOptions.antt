-- ===== src/Descriptor/EnumOptions.antt =====
-- `EnumOptions` of web/src/generated/google/protobuf/descriptor.ts: the message and its generated
-- functions.
use sample_grpc_service.Prelude.{
  ℕ, ◌≡◌, refl, Bool, false, Option, none, some, List, [], ◌∷◌, ◌++◌, map,
}
use sample_grpc_service.Prelude.Outcome.{Outcome, ok, ◌>>=◌}
use sample_grpc_service.Partial.{get_or, Fills, map-fill, Option-map-fill}
use sample_grpc_service.Wire.{
  Field, on_case, ◌▸◌, ◌◃◌, write_message?, write_messages, decode_with, read_message,
}
use sample_grpc_service.Wire.Loop.{IsTotal}
use sample_grpc_service.Wire.Cases.{no_case, some_case}
use sample_grpc_service.Wire.Writes.{field_message?, field_messages}
use sample_grpc_service.Wire.Runs.{Runs, ◌⨾◌, OnOption, OnList}
use sample_grpc_service.Wire.Codec.{Codec, codec_of, Runs-message?, Runs-list, message-Ends}
use sample_grpc_service.Js.{Js, obj, get_prop?, set_message?, set_array, message_field}
use sample_grpc_service.Js.Laws.{is_set-obj}
use sample_grpc_service.Js.Codec.{JsonCodec, message-fill}
use sample_grpc_service.Proto.{Runtime, Bytes, In, Out, flag, write_or, read}
use sample_grpc_service.Proto.Laws.{RuntimeLaws}
use sample_grpc_service.Proto.Runs.{bytes_or}
use sample_grpc_service.Proto.Totals.{flag_case}
use sample_grpc_service.Proto.Kept.{Enums, numbered, named, Runs-flag}
use sample_grpc_service.Proto.Json.{no_props, js_flag, field_or, field_either, set_or, array_either}
use sample_grpc_service.Proto.Json.Laws.{proto_laws, array_either-fill}
use sample_grpc_service.Descriptor.FeatureSet
use sample_grpc_service.Descriptor.FeatureSet.{FeatureSet, FeatureSetPartial}
use sample_grpc_service.Descriptor.UninterpretedOption
use sample_grpc_service.Descriptor.UninterpretedOption.{
  UninterpretedOption, UninterpretedOptionPartial,
}
use mathlib.Core.Option

pub record EnumOptions : Type 0 where
  pub allow_alias : Option Bool
  pub deprecated : Option Bool
  pub deprecated_legacy_json_field_conflicts : Option Bool
  pub features : Option FeatureSet
  pub uninterpreted_option : List UninterpretedOption

-- What `fromPartial` takes: each property may be missing, `null` or `undefined`.
pub record EnumOptionsPartial : Type 0 where
  pub allow_alias : Option Bool
  pub deprecated : Option Bool
  pub deprecated_legacy_json_field_conflicts : Option Bool
  pub features : Option FeatureSetPartial
  pub uninterpreted_option : Option (List UninterpretedOptionPartial)

unfoldable pub create_base : EnumOptions
create_base = record {
  allow_alias = some false;
  deprecated = some false;
  deprecated_legacy_json_field_conflicts = some false;
  features = none;
  uninterpreted_option = [];
}

module _ (e : Runtime) where
  unfoldable pub encode : EnumOptions → Out e → Out e
  encode m x =
      x
      ▸ write_or e (flag e) 16 false m.allow_alias
      ▸ write_or e (flag e) 24 false m.deprecated
      ▸ write_or e (flag e) 48 false m.deprecated_legacy_json_field_conflicts
      ▸ write_message? e.wire (FeatureSet.encode e) 58 m.features
      ▸ write_messages e.wire (UninterpretedOption.encode e) 7994 m.uninterpreted_option

  -- The `switch` of `decode`.
  unfoldable pub field : Field e.wire EnumOptions
  field self tag m r =
      on_case 2 16 tag (read e (flag e) r (λ v. record m { allow_alias = some v }))
      ◃ on_case 3 24 tag (read e (flag e) r (λ v. record m { deprecated = some v }))
      ◃ on_case 6 48 tag
          (read e (flag e) r (λ v. record m { deprecated_legacy_json_field_conflicts = some v }))
      ◃ on_case 7 58 tag
          (read_message e.wire (FeatureSet.decode e) r (λ v. record m { features = some v }))
      ◃ on_case 999 7994 tag (
          read_message e.wire (UninterpretedOption.decode e) r
            (λ v. record m { uninterpreted_option = m.uninterpreted_option ++ (v ∷ []) }))
      ◃ none

  unfoldable pub decode : In e → Option ℕ → Outcome (EnumOptions × In e)
  unfolding create_base
  decode r len = decode_with e.wire field create_base r len

  unfoldable pub from_json : Js → Outcome EnumOptions
  from_json o = do
    allow_alias' ← field_either js_flag "allowAlias" "allow_alias" false o
    deprecated' ← field_or js_flag "deprecated" false o
    deprecated_legacy_json_field_conflicts' ←
        field_either js_flag "deprecatedLegacyJsonFieldConflicts"
          "deprecated_legacy_json_field_conflicts" false o
    features' ← message_field (FeatureSet.from_json e) "features" o
    uninterpreted_option' ←
        array_either (UninterpretedOption.from_json e) (get_prop? "uninterpretedOption" o)
          (get_prop? "uninterpreted_option" o)
    ok (record {
      allow_alias = allow_alias';
      deprecated = deprecated';
      deprecated_legacy_json_field_conflicts = deprecated_legacy_json_field_conflicts';
      features = features';
      uninterpreted_option = uninterpreted_option';
    })

  unfoldable pub to_json : EnumOptions → Js
  to_json m = obj (
      no_props
      ▸ set_or js_flag "allowAlias" false m.allow_alias
      ▸ set_or js_flag "deprecated" false m.deprecated
      ▸ set_or js_flag "deprecatedLegacyJsonFieldConflicts" false
          m.deprecated_legacy_json_field_conflicts
      ▸ set_message? "features" (FeatureSet.to_json e) m.features
      ▸ set_array "uninterpretedOption" (UninterpretedOption.to_json e) m.uninterpreted_option)

unfoldable pub from_partial : EnumOptionsPartial → EnumOptions
unfolding create_base
from_partial o = record create_base {
  allow_alias = some (get_or false o.allow_alias);
  deprecated = some (get_or false o.deprecated);
  deprecated_legacy_json_field_conflicts =
      some (get_or false o.deprecated_legacy_json_field_conflicts);
  features = Option.map FeatureSet.from_partial o.features;
  uninterpreted_option =
      get_or [] (Option.map (map UninterpretedOption.from_partial) o.uninterpreted_option);
}

abbrev nothing : EnumOptionsPartial
nothing = record {
  allow_alias = none;
  deprecated = none;
  deprecated_legacy_json_field_conflicts = none;
  features = none;
  uninterpreted_option = none;
}

-- `create(base)`; `base ?? {}`
unfoldable pub create : Option EnumOptionsPartial → EnumOptions
unfolding from_partial
create base = from_partial (get_or nothing base)

-- The message with its missing values at their defaults.
unfoldable pub fill : EnumOptions → EnumOptions
fill m = record {
  allow_alias = some (get_or false m.allow_alias);
  deprecated = some (get_or false m.deprecated);
  deprecated_legacy_json_field_conflicts =
      some (get_or false m.deprecated_legacy_json_field_conflicts);
  features = Option.map FeatureSet.fill m.features;
  uninterpreted_option = map UninterpretedOption.fill m.uninterpreted_option;
}

module _ (e : Runtime) where
  -- The wire format: the fields in the order of their writes, defaults left out.
  unfoldable pub bytes : EnumOptions → Bytes e
  bytes m =
      bytes_or e (flag e) 16 false m.allow_alias
      ++ bytes_or e (flag e) 24 false m.deprecated
      ++ bytes_or e (flag e) 48 false m.deprecated_legacy_json_field_conflicts
      ++ field_message? e.wire (FeatureSet.bytes e) 58 m.features
      ++ field_messages e.wire (UninterpretedOption.RoundTrip.bytes e) 7994 m.uninterpreted_option

  -- The numbers of the message fit their fields.
  abbrev pub Fits : Enums → EnumOptions → Type 0
  Fits enums m =
      OnOption (FeatureSet.Fits e enums) m.features
      × OnList (UninterpretedOption.RoundTrip.Fits e enums) m.uninterpreted_option

  module _ (laws : RuntimeLaws e) where
    pub runs :
        (m : EnumOptions)
        → Fits numbered m
        → Runs e.wire laws.wire (field e) (encode e m) (bytes m) create_base (fill m)
    unfolding encode bytes field create_base fill
    runs m fits =
        Runs-flag e laws false 16 m.allow_alias (λ v k. record k { allow_alias = v }) refl
          (λ self k r. refl) refl
        ⨾ Runs-flag e laws false 24 m.deprecated (λ v k. record k { deprecated = v }) refl
            (λ self k r. refl) refl
        ⨾ Runs-flag e laws false 48 m.deprecated_legacy_json_field_conflicts
            (λ v k. record k { deprecated_legacy_json_field_conflicts = v }) refl (λ self k r. refl)
            refl
        ⨾ Runs-message? e.wire laws.wire (FeatureSet.codec e laws) 58 m.features
            (λ v k. record k { features = v }) refl fits.0 (λ self k r. refl) refl
        ⨾ Runs-list e.wire laws.wire (UninterpretedOption.RoundTrip.codec e laws) 7994
            m.uninterpreted_option (λ v k. record k { uninterpreted_option = v }) refl fits.1
            (λ self before k r. refl) refl

    pub IsTotal-field : IsTotal e.wire laws.wire (field e)
    unfolding field
    IsTotal-field self tag m r h =
        (flag_case e laws r 2 16 tag _
          ◃ flag_case e laws r 3 24 tag _
          ◃ flag_case e laws r 6 48 tag _
          ◃ some_case r 7 58 tag _ (message-Ends e.wire laws.wire (FeatureSet.codec e laws) r _)
          ◃ some_case r 999 7994 tag _
              (message-Ends e.wire laws.wire (UninterpretedOption.RoundTrip.codec e laws) r _)
          ◃ no_case).ends

    pub decode-loop :
        (r : In e) (len : Option ℕ)
        → decode e r len ≡ decode_with e.wire (field e) create_base r len
    unfolding decode
    decode-loop r len = refl

    abbrev pub codec : Codec e.wire EnumOptions
    codec =
        codec_of e.wire laws.wire (encode e) (decode e) (field e) create_base bytes fill
          (Fits numbered) decode-loop runs IsTotal-field

pub json_codec :
    (e : Runtime) → RuntimeLaws e → JsonCodec (to_json e) (from_json e) fill (Fits e named)
unfolding from_json to_json fill
json_codec e laws = record {
  from-to = λ m fits. simp (
    proto_laws,
    message-fill (FeatureSet.json_codec e laws) m.features fits.0,
    array_either-fill (UninterpretedOption.Json.json_codec e laws) m.uninterpreted_option fits.1,
  );
  shown = λ m. is_set-obj _;
}

-- All of a message, as an argument of `fromPartial`.
abbrev pub whole : EnumOptions → EnumOptionsPartial
whole m = record {
  allow_alias = m.allow_alias;
  deprecated = m.deprecated;
  deprecated_legacy_json_field_conflicts = m.deprecated_legacy_json_field_conflicts;
  features = Option.map FeatureSet.whole m.features;
  uninterpreted_option = some (map UninterpretedOption.Json.whole m.uninterpreted_option);
}

pub fills : Fills whole from_partial fill
unfolding from_partial create_base fill
fills = record {
  fills = λ m.
      rw
        (
          Option-map-fill FeatureSet.fills m.features,
          map-fill UninterpretedOption.Json.fills m.uninterpreted_option,
        )
        refl;
}
