-- ===== src/Descriptor/OneofOptions.antt =====
-- `OneofOptions` of web/src/generated/google/protobuf/descriptor.ts: the message and its generated
-- functions.
use sample_grpc_service.Prelude.{ℕ, ◌≡◌, refl, Option, none, some, List, [], ◌∷◌, ◌++◌, map}
use sample_grpc_service.Prelude.Outcome.{Outcome, ok, ◌>>=◌}
use sample_grpc_service.Partial.{get_or, Fills, map-fill, Option-map-fill}
use sample_grpc_service.Wire.{
  Field, on_case, ◌▸◌, ◌◃◌, write_message?, write_messages, decode_with, read_message,
}
use sample_grpc_service.Wire.Loop.{IsTotal}
use sample_grpc_service.Wire.Cases.{no_case, some_case}
use sample_grpc_service.Wire.Writes.{field_message?, field_messages}
use sample_grpc_service.Wire.Runs.{Runs, ◌⨾◌, OnOption, OnList}
use sample_grpc_service.Wire.Codec.{Codec, codec_of, Runs-message?, Runs-list, message-Ends}
use sample_grpc_service.Js.{Js, obj, get_prop?, set_message?, set_array, message_field}
use sample_grpc_service.Js.Laws.{is_set-obj}
use sample_grpc_service.Js.Codec.{JsonCodec, message-fill}
use sample_grpc_service.Proto.{Runtime, Bytes, In, Out}
use sample_grpc_service.Proto.Laws.{RuntimeLaws}
use sample_grpc_service.Proto.Kept.{Enums, numbered, named}
use sample_grpc_service.Proto.Json.{no_props, array_either}
use sample_grpc_service.Proto.Json.Laws.{proto_laws, array_either-fill}
use sample_grpc_service.Descriptor.FeatureSet
use sample_grpc_service.Descriptor.FeatureSet.{FeatureSet, FeatureSetPartial}
use sample_grpc_service.Descriptor.UninterpretedOption
use sample_grpc_service.Descriptor.UninterpretedOption.{
  UninterpretedOption, UninterpretedOptionPartial,
}
use mathlib.Core.Option

pub record OneofOptions : Type 0 where
  pub features : Option FeatureSet
  pub uninterpreted_option : List UninterpretedOption

-- What `fromPartial` takes: each property may be missing, `null` or `undefined`.
pub record OneofOptionsPartial : Type 0 where
  pub features : Option FeatureSetPartial
  pub uninterpreted_option : Option (List UninterpretedOptionPartial)

unfoldable pub create_base : OneofOptions
create_base = record { features = none; uninterpreted_option = [] }

module _ (e : Runtime) where
  unfoldable pub encode : OneofOptions → Out e → Out e
  encode m x =
      x
      ▸ write_message? e.wire (FeatureSet.encode e) 10 m.features
      ▸ write_messages e.wire (UninterpretedOption.encode e) 7994 m.uninterpreted_option

  -- The `switch` of `decode`.
  unfoldable pub field : Field e.wire OneofOptions
  field self tag m r =
      on_case 1 10 tag
        (read_message e.wire (FeatureSet.decode e) r (λ v. record m { features = some v }))
      ◃ on_case 999 7994 tag (
          read_message e.wire (UninterpretedOption.decode e) r
            (λ v. record m { uninterpreted_option = m.uninterpreted_option ++ (v ∷ []) }))
      ◃ none

  unfoldable pub decode : In e → Option ℕ → Outcome (OneofOptions × In e)
  unfolding create_base
  decode r len = decode_with e.wire field create_base r len

  unfoldable pub from_json : Js → Outcome OneofOptions
  from_json o = do
    features' ← message_field (FeatureSet.from_json e) "features" o
    uninterpreted_option' ←
        array_either (UninterpretedOption.from_json e) (get_prop? "uninterpretedOption" o)
          (get_prop? "uninterpreted_option" o)
    ok (record { features = features'; uninterpreted_option = uninterpreted_option' })

  unfoldable pub to_json : OneofOptions → Js
  to_json m = obj (
      no_props
      ▸ set_message? "features" (FeatureSet.to_json e) m.features
      ▸ set_array "uninterpretedOption" (UninterpretedOption.to_json e) m.uninterpreted_option)

unfoldable pub from_partial : OneofOptionsPartial → OneofOptions
unfolding create_base
from_partial o = record create_base {
  features = Option.map FeatureSet.from_partial o.features;
  uninterpreted_option =
      get_or [] (Option.map (map UninterpretedOption.from_partial) o.uninterpreted_option);
}

abbrev nothing : OneofOptionsPartial
nothing = record { features = none; uninterpreted_option = none }

-- `create(base)`; `base ?? {}`
unfoldable pub create : Option OneofOptionsPartial → OneofOptions
unfolding from_partial
create base = from_partial (get_or nothing base)

-- The message with its missing values at their defaults.
unfoldable pub fill : OneofOptions → OneofOptions
fill m = record {
  features = Option.map FeatureSet.fill m.features;
  uninterpreted_option = map UninterpretedOption.fill m.uninterpreted_option;
}

module _ (e : Runtime) where
  -- The wire format: the fields in the order of their writes, defaults left out.
  unfoldable pub bytes : OneofOptions → Bytes e
  bytes m =
      field_message? e.wire (FeatureSet.bytes e) 10 m.features
      ++ field_messages e.wire (UninterpretedOption.RoundTrip.bytes e) 7994 m.uninterpreted_option

  -- The numbers of the message fit their fields.
  abbrev pub Fits : Enums → OneofOptions → Type 0
  Fits enums m =
      OnOption (FeatureSet.Fits e enums) m.features
      × OnList (UninterpretedOption.RoundTrip.Fits e enums) m.uninterpreted_option

  module _ (laws : RuntimeLaws e) where
    pub runs :
        (m : OneofOptions)
        → Fits numbered m
        → Runs e.wire laws.wire (field e) (encode e m) (bytes m) create_base (fill m)
    unfolding encode bytes field create_base fill
    runs m fits =
        Runs-message? e.wire laws.wire (FeatureSet.codec e laws) 10 m.features
          (λ v k. record k { features = v }) refl fits.0 (λ self k r. refl) refl
        ⨾ Runs-list e.wire laws.wire (UninterpretedOption.RoundTrip.codec e laws) 7994
            m.uninterpreted_option (λ v k. record k { uninterpreted_option = v }) refl fits.1
            (λ self before k r. refl) refl

    pub IsTotal-field : IsTotal e.wire laws.wire (field e)
    unfolding field
    IsTotal-field self tag m r h =
        (some_case r 1 10 tag _ (message-Ends e.wire laws.wire (FeatureSet.codec e laws) r _)
          ◃ some_case r 999 7994 tag _
              (message-Ends e.wire laws.wire (UninterpretedOption.RoundTrip.codec e laws) r _)
          ◃ no_case).ends

    pub decode-loop :
        (r : In e) (len : Option ℕ)
        → decode e r len ≡ decode_with e.wire (field e) create_base r len
    unfolding decode
    decode-loop r len = refl

    abbrev pub codec : Codec e.wire OneofOptions
    codec =
        codec_of e.wire laws.wire (encode e) (decode e) (field e) create_base bytes fill
          (Fits numbered) decode-loop runs IsTotal-field

pub json_codec :
    (e : Runtime) → RuntimeLaws e → JsonCodec (to_json e) (from_json e) fill (Fits e named)
unfolding from_json to_json fill
json_codec e laws = record {
  from-to = λ m fits. simp (
    proto_laws,
    message-fill (FeatureSet.json_codec e laws) m.features fits.0,
    array_either-fill (UninterpretedOption.Json.json_codec e laws) m.uninterpreted_option fits.1,
  );
  shown = λ m. is_set-obj _;
}

-- All of a message, as an argument of `fromPartial`.
abbrev pub whole : OneofOptions → OneofOptionsPartial
whole m = record {
  features = Option.map FeatureSet.whole m.features;
  uninterpreted_option = some (map UninterpretedOption.Json.whole m.uninterpreted_option);
}

pub fills : Fills whole from_partial fill
unfolding from_partial create_base fill
fills = record {
  fills = λ m.
      rw
        (
          Option-map-fill FeatureSet.fills m.features,
          map-fill UninterpretedOption.Json.fills m.uninterpreted_option,
        )
        refl;
}
