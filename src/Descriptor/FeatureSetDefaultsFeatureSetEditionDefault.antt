-- ===== src/Descriptor/FeatureSetDefaultsFeatureSetEditionDefault.antt =====
-- `FeatureSetDefaults_FeatureSetEditionDefault` of web/src/generated/google/protobuf/descriptor.ts:
-- the message and its generated functions.
use sample_grpc_service.Prelude.{ℕ, ◌≡◌, refl, String, Option, none, some, ◌++◌}
use sample_grpc_service.Prelude.Outcome.{Outcome, ok, ◌>>=◌}
use sample_grpc_service.Partial.{get_or, Fills, Option-map-fill}
use sample_grpc_service.Wire.{Field, on_case, ◌▸◌, ◌◃◌, write_message?, decode_with, read_message}
use sample_grpc_service.Wire.Loop.{IsTotal}
use sample_grpc_service.Wire.Cases.{no_case, some_case}
use sample_grpc_service.Wire.Writes.{field_message?}
use sample_grpc_service.Wire.Runs.{Runs, ◌⨾◌, OnOption}
use sample_grpc_service.Wire.Codec.{Codec, codec_of, Runs-message?, message-Ends}
use sample_grpc_service.Js.{Js, obj, set_message?}
use sample_grpc_service.Js.Laws.{is_set-obj}
use sample_grpc_service.Js.Codec.{JsonCodec}
use sample_grpc_service.Proto.{Runtime, Bytes, In, Out, int32, write_or, read}
use sample_grpc_service.Proto.Laws.{RuntimeLaws}
use sample_grpc_service.Proto.Runs.{bytes_or}
use sample_grpc_service.Proto.Totals.{int32_case}
use sample_grpc_service.Proto.Kept.{Enums, numbered, named, Runs-int32}
use sample_grpc_service.Proto.Json.{no_props, field_or, set_or, message_field_either}
use sample_grpc_service.Proto.Json.Laws.{proto_laws, value_or-default, message_either-fill}
use sample_grpc_service.Descriptor.Edition
use sample_grpc_service.Descriptor.FeatureSet
use sample_grpc_service.Descriptor.FeatureSet.{FeatureSet, FeatureSetPartial}
use mathlib.Core.Option

pub record FeatureSetDefaultsFeatureSetEditionDefault : Type 0 where
  pub edition : Option String
  pub overridable_features : Option FeatureSet
  pub fixed_features : Option FeatureSet

-- What `fromPartial` takes: each property may be missing, `null` or `undefined`.
pub record FeatureSetDefaultsFeatureSetEditionDefaultPartial : Type 0 where
  pub edition : Option String
  pub overridable_features : Option FeatureSetPartial
  pub fixed_features : Option FeatureSetPartial

unfoldable pub create_base : FeatureSetDefaultsFeatureSetEditionDefault
create_base = record { edition = some "0"; overridable_features = none; fixed_features = none }

module _ (e : Runtime) where
  unfoldable pub encode : FeatureSetDefaultsFeatureSetEditionDefault → Out e → Out e
  encode m x =
      x
      ▸ write_or e (int32 e) 24 "0" m.edition
      ▸ write_message? e.wire (FeatureSet.encode e) 34 m.overridable_features
      ▸ write_message? e.wire (FeatureSet.encode e) 42 m.fixed_features

  -- The `switch` of `decode`.
  unfoldable pub field : Field e.wire FeatureSetDefaultsFeatureSetEditionDefault
  field self tag m r =
      on_case 3 24 tag (read e (int32 e) r (λ v. record m { edition = some v }))
      ◃ on_case 4 34 tag (
          read_message e.wire (FeatureSet.decode e) r
            (λ v. record m { overridable_features = some v }))
      ◃ on_case 5 42 tag
          (read_message e.wire (FeatureSet.decode e) r (λ v. record m { fixed_features = some v }))
      ◃ none

  unfoldable pub decode :
      In e → Option ℕ → Outcome (FeatureSetDefaultsFeatureSetEditionDefault × In e)
  unfolding create_base
  decode r len = decode_with e.wire field create_base r len

  unfoldable pub from_json : Js → Outcome FeatureSetDefaultsFeatureSetEditionDefault
  from_json o = do
    edition' ← field_or Edition.scalar "edition" "0" o
    overridable_features' ←
        message_field_either (FeatureSet.from_json e) "overridableFeatures" "overridable_features" o
    fixed_features' ←
        message_field_either (FeatureSet.from_json e) "fixedFeatures" "fixed_features" o
    ok (record {
      edition = edition';
      overridable_features = overridable_features';
      fixed_features = fixed_features';
    })

  unfoldable pub to_json : FeatureSetDefaultsFeatureSetEditionDefault → Js
  to_json m = obj (
      no_props
      ▸ set_or Edition.scalar "edition" "0" m.edition
      ▸ set_message? "overridableFeatures" (FeatureSet.to_json e) m.overridable_features
      ▸ set_message? "fixedFeatures" (FeatureSet.to_json e) m.fixed_features)

unfoldable pub from_partial :
    FeatureSetDefaultsFeatureSetEditionDefaultPartial → FeatureSetDefaultsFeatureSetEditionDefault
unfolding create_base
from_partial o = record create_base {
  edition = some (get_or "0" o.edition);
  overridable_features = Option.map FeatureSet.from_partial o.overridable_features;
  fixed_features = Option.map FeatureSet.from_partial o.fixed_features;
}

abbrev nothing : FeatureSetDefaultsFeatureSetEditionDefaultPartial
nothing = record { edition = none; overridable_features = none; fixed_features = none }

-- `create(base)`; `base ?? {}`
unfoldable pub create :
    Option FeatureSetDefaultsFeatureSetEditionDefaultPartial
    → FeatureSetDefaultsFeatureSetEditionDefault
unfolding from_partial
create base = from_partial (get_or nothing base)

-- The message with its missing values at their defaults.
unfoldable pub fill :
    FeatureSetDefaultsFeatureSetEditionDefault → FeatureSetDefaultsFeatureSetEditionDefault
fill m = record {
  edition = some (get_or "0" m.edition);
  overridable_features = Option.map FeatureSet.fill m.overridable_features;
  fixed_features = Option.map FeatureSet.fill m.fixed_features;
}

module _ (e : Runtime) where
  -- The wire format: the fields in the order of their writes, defaults left out.
  unfoldable pub bytes : FeatureSetDefaultsFeatureSetEditionDefault → Bytes e
  bytes m =
      bytes_or e (int32 e) 24 "0" m.edition
      ++ field_message? e.wire (FeatureSet.bytes e) 34 m.overridable_features
      ++ field_message? e.wire (FeatureSet.bytes e) 42 m.fixed_features

  -- The numbers of the message fit their fields.
  abbrev pub Fits : Enums → FeatureSetDefaultsFeatureSetEditionDefault → Type 0
  Fits enums m =
      OnOption (Edition.Json.Fits e enums) m.edition
      × OnOption (FeatureSet.Fits e enums) m.overridable_features
      × OnOption (FeatureSet.Fits e enums) m.fixed_features

  module _ (laws : RuntimeLaws e) where
    pub runs :
        (m : FeatureSetDefaultsFeatureSetEditionDefault)
        → Fits numbered m
        → Runs e.wire laws.wire (field e) (encode e m) (bytes m) create_base (fill m)
    unfolding encode bytes field create_base fill
    runs m fits =
        Runs-int32 e laws "0" 24 m.edition (λ v k. record k { edition = v }) refl fits.0
          (λ self k r. refl) refl
        ⨾ Runs-message? e.wire laws.wire (FeatureSet.codec e laws) 34 m.overridable_features
            (λ v k. record k { overridable_features = v }) refl fits.1 (λ self k r. refl) refl
        ⨾ Runs-message? e.wire laws.wire (FeatureSet.codec e laws) 42 m.fixed_features
            (λ v k. record k { fixed_features = v }) refl fits.2 (λ self k r. refl) refl

    pub IsTotal-field : IsTotal e.wire laws.wire (field e)
    unfolding field
    IsTotal-field self tag m r h =
        (int32_case e laws r 3 24 tag _
          ◃ some_case r 4 34 tag _ (message-Ends e.wire laws.wire (FeatureSet.codec e laws) r _)
          ◃ some_case r 5 42 tag _ (message-Ends e.wire laws.wire (FeatureSet.codec e laws) r _)
          ◃ no_case).ends

    pub decode-loop :
        (r : In e) (len : Option ℕ)
        → decode e r len ≡ decode_with e.wire (field e) create_base r len
    unfolding decode
    decode-loop r len = refl

    abbrev pub codec : Codec e.wire FeatureSetDefaultsFeatureSetEditionDefault
    codec =
        codec_of e.wire laws.wire (encode e) (decode e) (field e) create_base bytes fill
          (Fits numbered) decode-loop runs IsTotal-field

pub json_codec :
    (e : Runtime) → RuntimeLaws e → JsonCodec (to_json e) (from_json e) fill (Fits e named)
unfolding from_json to_json fill
json_codec e laws = record {
  from-to = λ m fits. simp (
    proto_laws,
    value_or-default (Edition.Json.scalar-kept "0") m.edition fits.0,
    message_either-fill (FeatureSet.json_codec e laws) m.overridable_features fits.1,
    message_either-fill (FeatureSet.json_codec e laws) m.fixed_features fits.2,
  );
  shown = λ m. is_set-obj _;
}

-- All of a message, as an argument of `fromPartial`.
abbrev pub whole :
    FeatureSetDefaultsFeatureSetEditionDefault → FeatureSetDefaultsFeatureSetEditionDefaultPartial
whole m = record {
  edition = m.edition;
  overridable_features = Option.map FeatureSet.whole m.overridable_features;
  fixed_features = Option.map FeatureSet.whole m.fixed_features;
}

pub fills : Fills whole from_partial fill
unfolding from_partial create_base fill
fills = record {
  fills = λ m.
      rw
        (
          Option-map-fill FeatureSet.fills m.overridable_features,
          Option-map-fill FeatureSet.fills m.fixed_features,
        )
        refl;
}
