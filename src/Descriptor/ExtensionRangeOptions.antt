-- ===== src/Descriptor/ExtensionRangeOptions.antt =====
-- `ExtensionRangeOptions` of web/src/generated/google/protobuf/descriptor.ts: the message and its
-- generated functions.
use sample_grpc_service.Prelude.{ℕ, ◌≡◌, refl, String, Option, none, some, List, [], ◌∷◌, ◌++◌, map}
use sample_grpc_service.Prelude.Outcome.{Outcome, ok, ◌>>=◌}
use sample_grpc_service.Partial.{get_or, Fills, map-fill, Option-map-fill}
use sample_grpc_service.Wire.{
  Field, on_case, ◌▸◌, ◌◃◌, write_message?, write_messages, decode_with, read_message,
}
use sample_grpc_service.Wire.Loop.{IsTotal}
use sample_grpc_service.Wire.Cases.{no_case, some_case}
use sample_grpc_service.Wire.Writes.{field_message?, field_messages}
use sample_grpc_service.Wire.Runs.{Runs, ◌⨾◌, OnOption, OnList}
use sample_grpc_service.Wire.Codec.{Codec, codec_of, Runs-message?, Runs-list, message-Ends}
use sample_grpc_service.Js.{Js, obj, get_prop?, set_message?, set_array, message_field, array_field}
use sample_grpc_service.Js.Laws.{is_set-obj}
use sample_grpc_service.Js.Codec.{JsonCodec, array-fill, message-fill}
use sample_grpc_service.Proto.{Runtime, Bytes, In, Out, int32, write_or, read}
use sample_grpc_service.Proto.Laws.{RuntimeLaws}
use sample_grpc_service.Proto.Runs.{bytes_or}
use sample_grpc_service.Proto.Totals.{int32_case}
use sample_grpc_service.Proto.Kept.{Enums, numbered, named, Runs-int32}
use sample_grpc_service.Proto.Json.{no_props, field_or, set_or, array_either}
use sample_grpc_service.Proto.Json.Laws.{proto_laws, value_or-default, array_either-fill}
use sample_grpc_service.Descriptor.ExtensionRangeOptionsVerificationState
use sample_grpc_service.Descriptor.UninterpretedOption
use sample_grpc_service.Descriptor.UninterpretedOption.{
  UninterpretedOption, UninterpretedOptionPartial,
}
use sample_grpc_service.Descriptor.ExtensionRangeOptionsDeclaration
use sample_grpc_service.Descriptor.ExtensionRangeOptionsDeclaration.{
  ExtensionRangeOptionsDeclaration, ExtensionRangeOptionsDeclarationPartial,
}
use sample_grpc_service.Descriptor.FeatureSet
use sample_grpc_service.Descriptor.FeatureSet.{FeatureSet, FeatureSetPartial}
use mathlib.Core.Option

pub record ExtensionRangeOptions : Type 0 where
  pub uninterpreted_option : List UninterpretedOption
  pub declaration : List ExtensionRangeOptionsDeclaration
  pub features : Option FeatureSet
  pub verification : Option String

-- What `fromPartial` takes: each property may be missing, `null` or `undefined`.
pub record ExtensionRangeOptionsPartial : Type 0 where
  pub uninterpreted_option : Option (List UninterpretedOptionPartial)
  pub declaration : Option (List ExtensionRangeOptionsDeclarationPartial)
  pub features : Option FeatureSetPartial
  pub verification : Option String

unfoldable pub create_base : ExtensionRangeOptions
create_base = record {
  uninterpreted_option = [];
  declaration = [];
  features = none;
  verification = some "1";
}

module _ (e : Runtime) where
  unfoldable pub encode : ExtensionRangeOptions → Out e → Out e
  encode m x =
      x
      ▸ write_messages e.wire (UninterpretedOption.encode e) 7994 m.uninterpreted_option
      ▸ write_messages e.wire (ExtensionRangeOptionsDeclaration.encode e) 18 m.declaration
      ▸ write_message? e.wire (FeatureSet.encode e) 402 m.features
      ▸ write_or e (int32 e) 24 "1" m.verification

  -- The `switch` of `decode`.
  unfoldable pub field : Field e.wire ExtensionRangeOptions
  field self tag m r =
      on_case 999 7994 tag (
        read_message e.wire (UninterpretedOption.decode e) r
          (λ v. record m { uninterpreted_option = m.uninterpreted_option ++ (v ∷ []) }))
      ◃ on_case 2 18 tag (
          read_message e.wire (ExtensionRangeOptionsDeclaration.decode e) r
            (λ v. record m { declaration = m.declaration ++ (v ∷ []) }))
      ◃ on_case 50 402 tag
          (read_message e.wire (FeatureSet.decode e) r (λ v. record m { features = some v }))
      ◃ on_case 3 24 tag (read e (int32 e) r (λ v. record m { verification = some v }))
      ◃ none

  unfoldable pub decode : In e → Option ℕ → Outcome (ExtensionRangeOptions × In e)
  unfolding create_base
  decode r len = decode_with e.wire field create_base r len

  unfoldable pub from_json : Js → Outcome ExtensionRangeOptions
  from_json o = do
    uninterpreted_option' ←
        array_either (UninterpretedOption.from_json e) (get_prop? "uninterpretedOption" o)
          (get_prop? "uninterpreted_option" o)
    declaration' ←
        array_field (ExtensionRangeOptionsDeclaration.from_json e) (get_prop? "declaration" o)
    features' ← message_field (FeatureSet.from_json e) "features" o
    verification' ← field_or ExtensionRangeOptionsVerificationState.scalar "verification" "1" o
    ok (record {
      uninterpreted_option = uninterpreted_option';
      declaration = declaration';
      features = features';
      verification = verification';
    })

  unfoldable pub to_json : ExtensionRangeOptions → Js
  to_json m = obj (
      no_props
      ▸ set_array "uninterpretedOption" (UninterpretedOption.to_json e) m.uninterpreted_option
      ▸ set_array "declaration" (ExtensionRangeOptionsDeclaration.to_json e) m.declaration
      ▸ set_message? "features" (FeatureSet.to_json e) m.features
      ▸ set_or ExtensionRangeOptionsVerificationState.scalar "verification" "1" m.verification)

unfoldable pub from_partial : ExtensionRangeOptionsPartial → ExtensionRangeOptions
unfolding create_base
from_partial o = record create_base {
  uninterpreted_option =
      get_or [] (Option.map (map UninterpretedOption.from_partial) o.uninterpreted_option);
  declaration =
      get_or [] (Option.map (map ExtensionRangeOptionsDeclaration.from_partial) o.declaration);
  features = Option.map FeatureSet.from_partial o.features;
  verification = some (get_or "1" o.verification);
}

abbrev nothing : ExtensionRangeOptionsPartial
nothing = record {
  uninterpreted_option = none;
  declaration = none;
  features = none;
  verification = none;
}

-- `create(base)`; `base ?? {}`
unfoldable pub create : Option ExtensionRangeOptionsPartial → ExtensionRangeOptions
unfolding from_partial
create base = from_partial (get_or nothing base)

-- The message with its missing values at their defaults.
unfoldable pub fill : ExtensionRangeOptions → ExtensionRangeOptions
fill m = record {
  uninterpreted_option = map UninterpretedOption.fill m.uninterpreted_option;
  declaration = map ExtensionRangeOptionsDeclaration.fill m.declaration;
  features = Option.map FeatureSet.fill m.features;
  verification = some (get_or "1" m.verification);
}

module _ (e : Runtime) where
  -- The wire format: the fields in the order of their writes, defaults left out.
  unfoldable pub bytes : ExtensionRangeOptions → Bytes e
  bytes m =
      field_messages e.wire (UninterpretedOption.RoundTrip.bytes e) 7994 m.uninterpreted_option
      ++ field_messages e.wire (ExtensionRangeOptionsDeclaration.bytes e) 18 m.declaration
      ++ field_message? e.wire (FeatureSet.bytes e) 402 m.features
      ++ bytes_or e (int32 e) 24 "1" m.verification

  -- The numbers of the message fit their fields.
  abbrev pub Fits : Enums → ExtensionRangeOptions → Type 0
  Fits enums m =
      OnList (UninterpretedOption.RoundTrip.Fits e enums) m.uninterpreted_option
      × OnList (ExtensionRangeOptionsDeclaration.Fits e enums) m.declaration
      × OnOption (FeatureSet.Fits e enums) m.features
      × OnOption (ExtensionRangeOptionsVerificationState.Json.Fits e enums) m.verification

  module _ (laws : RuntimeLaws e) where
    pub runs :
        (m : ExtensionRangeOptions)
        → Fits numbered m
        → Runs e.wire laws.wire (field e) (encode e m) (bytes m) create_base (fill m)
    unfolding encode bytes field create_base fill
    runs m fits =
        Runs-list e.wire laws.wire (UninterpretedOption.RoundTrip.codec e laws) 7994
          m.uninterpreted_option (λ v k. record k { uninterpreted_option = v }) refl fits.0
          (λ self before k r. refl) refl
        ⨾ Runs-list e.wire laws.wire (ExtensionRangeOptionsDeclaration.codec e laws) 18
            m.declaration (λ v k. record k { declaration = v }) refl fits.1
            (λ self before k r. refl) refl
        ⨾ Runs-message? e.wire laws.wire (FeatureSet.codec e laws) 402 m.features
            (λ v k. record k { features = v }) refl fits.2 (λ self k r. refl) refl
        ⨾ Runs-int32 e laws "1" 24 m.verification (λ v k. record k { verification = v }) refl fits.3
            (λ self k r. refl) refl

    pub IsTotal-field : IsTotal e.wire laws.wire (field e)
    unfolding field
    IsTotal-field self tag m r h =
        (some_case r 999 7994 tag _
            (message-Ends e.wire laws.wire (UninterpretedOption.RoundTrip.codec e laws) r _)
          ◃ some_case r 2 18 tag _
              (message-Ends e.wire laws.wire (ExtensionRangeOptionsDeclaration.codec e laws) r _)
          ◃ some_case r 50 402 tag _ (message-Ends e.wire laws.wire (FeatureSet.codec e laws) r _)
          ◃ int32_case e laws r 3 24 tag _
          ◃ no_case).ends

    pub decode-loop :
        (r : In e) (len : Option ℕ)
        → decode e r len ≡ decode_with e.wire (field e) create_base r len
    unfolding decode
    decode-loop r len = refl

    abbrev pub codec : Codec e.wire ExtensionRangeOptions
    codec =
        codec_of e.wire laws.wire (encode e) (decode e) (field e) create_base bytes fill
          (Fits numbered) decode-loop runs IsTotal-field

pub json_codec :
    (e : Runtime) → RuntimeLaws e → JsonCodec (to_json e) (from_json e) fill (Fits e named)
unfolding from_json to_json fill
json_codec e laws = record {
  from-to = λ m fits. simp (
    proto_laws,
    array_either-fill (UninterpretedOption.Json.json_codec e laws) m.uninterpreted_option fits.0,
    array-fill (ExtensionRangeOptionsDeclaration.json_codec e laws) m.declaration fits.1,
    message-fill (FeatureSet.json_codec e laws) m.features fits.2,
    value_or-default (ExtensionRangeOptionsVerificationState.Json.scalar-kept "1") m.verification
        fits.3,
  );
  shown = λ m. is_set-obj _;
}

-- All of a message, as an argument of `fromPartial`.
abbrev pub whole : ExtensionRangeOptions → ExtensionRangeOptionsPartial
whole m = record {
  uninterpreted_option = some (map UninterpretedOption.Json.whole m.uninterpreted_option);
  declaration = some (map ExtensionRangeOptionsDeclaration.whole m.declaration);
  features = Option.map FeatureSet.whole m.features;
  verification = m.verification;
}

pub fills : Fills whole from_partial fill
unfolding from_partial create_base fill
fills = record {
  fills = λ m.
      rw
        (
          map-fill UninterpretedOption.Json.fills m.uninterpreted_option,
          map-fill ExtensionRangeOptionsDeclaration.fills m.declaration,
          Option-map-fill FeatureSet.fills m.features,
        )
        refl;
}
