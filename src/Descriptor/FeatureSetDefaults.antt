-- ===== src/Descriptor/FeatureSetDefaults.antt =====
-- `FeatureSetDefaults` of web/src/generated/google/protobuf/descriptor.ts: the message and its
-- generated functions.
use sample_grpc_service.Prelude.{ℕ, ◌≡◌, refl, String, Option, none, some, List, [], ◌∷◌, ◌++◌, map}
use sample_grpc_service.Prelude.Outcome.{Outcome, ok, ◌>>=◌}
use sample_grpc_service.Partial.{get_or, Fills, map-fill}
use sample_grpc_service.Wire.{Field, on_case, ◌▸◌, ◌◃◌, write_messages, decode_with, read_message}
use sample_grpc_service.Wire.Loop.{IsTotal}
use sample_grpc_service.Wire.Cases.{no_case, some_case}
use sample_grpc_service.Wire.Writes.{field_messages}
use sample_grpc_service.Wire.Runs.{Runs, ◌⨾◌, OnOption, OnList}
use sample_grpc_service.Wire.Codec.{Codec, codec_of, Runs-list, message-Ends}
use sample_grpc_service.Js.{Js, obj, get_prop?, set_array, array_field}
use sample_grpc_service.Js.Laws.{is_set-obj}
use sample_grpc_service.Js.Codec.{JsonCodec, array-fill}
use sample_grpc_service.Proto.{Runtime, Bytes, In, Out, int32, write_or, read}
use sample_grpc_service.Proto.Laws.{RuntimeLaws}
use sample_grpc_service.Proto.Runs.{bytes_or}
use sample_grpc_service.Proto.Totals.{int32_case}
use sample_grpc_service.Proto.Kept.{Enums, numbered, named, Runs-int32}
use sample_grpc_service.Proto.Json.{no_props, field_either, set_or}
use sample_grpc_service.Proto.Json.Laws.{proto_laws, either_or-default}
use sample_grpc_service.Descriptor.Edition
use sample_grpc_service.Descriptor.FeatureSetDefaultsFeatureSetEditionDefault
use sample_grpc_service.Descriptor.FeatureSetDefaultsFeatureSetEditionDefault.{
  FeatureSetDefaultsFeatureSetEditionDefault, FeatureSetDefaultsFeatureSetEditionDefaultPartial,
}
use mathlib.Core.Option

pub record FeatureSetDefaults : Type 0 where
  pub defaults : List FeatureSetDefaultsFeatureSetEditionDefault
  pub minimum_edition : Option String
  pub maximum_edition : Option String

-- What `fromPartial` takes: each property may be missing, `null` or `undefined`.
pub record FeatureSetDefaultsPartial : Type 0 where
  pub defaults : Option (List FeatureSetDefaultsFeatureSetEditionDefaultPartial)
  pub minimum_edition : Option String
  pub maximum_edition : Option String

unfoldable pub create_base : FeatureSetDefaults
create_base = record { defaults = []; minimum_edition = some "0"; maximum_edition = some "0" }

module _ (e : Runtime) where
  unfoldable pub encode : FeatureSetDefaults → Out e → Out e
  encode m x =
      x
      ▸ write_messages e.wire (FeatureSetDefaultsFeatureSetEditionDefault.encode e) 10 m.defaults
      ▸ write_or e (int32 e) 32 "0" m.minimum_edition
      ▸ write_or e (int32 e) 40 "0" m.maximum_edition

  -- The `switch` of `decode`.
  unfoldable pub field : Field e.wire FeatureSetDefaults
  field self tag m r =
      on_case 1 10 tag (
        read_message e.wire (FeatureSetDefaultsFeatureSetEditionDefault.decode e) r
          (λ v. record m { defaults = m.defaults ++ (v ∷ []) }))
      ◃ on_case 4 32 tag (read e (int32 e) r (λ v. record m { minimum_edition = some v }))
      ◃ on_case 5 40 tag (read e (int32 e) r (λ v. record m { maximum_edition = some v }))
      ◃ none

  unfoldable pub decode : In e → Option ℕ → Outcome (FeatureSetDefaults × In e)
  unfolding create_base
  decode r len = decode_with e.wire field create_base r len

  unfoldable pub from_json : Js → Outcome FeatureSetDefaults
  from_json o = do
    defaults' ←
        array_field (FeatureSetDefaultsFeatureSetEditionDefault.from_json e)
          (get_prop? "defaults" o)
    minimum_edition' ← field_either Edition.scalar "minimumEdition" "minimum_edition" "0" o
    maximum_edition' ← field_either Edition.scalar "maximumEdition" "maximum_edition" "0" o
    ok (record {
      defaults = defaults';
      minimum_edition = minimum_edition';
      maximum_edition = maximum_edition';
    })

  unfoldable pub to_json : FeatureSetDefaults → Js
  to_json m = obj (
      no_props
      ▸ set_array "defaults" (FeatureSetDefaultsFeatureSetEditionDefault.to_json e) m.defaults
      ▸ set_or Edition.scalar "minimumEdition" "0" m.minimum_edition
      ▸ set_or Edition.scalar "maximumEdition" "0" m.maximum_edition)

unfoldable pub from_partial : FeatureSetDefaultsPartial → FeatureSetDefaults
unfolding create_base
from_partial o = record create_base {
  defaults =
      get_or []
        (Option.map (map FeatureSetDefaultsFeatureSetEditionDefault.from_partial) o.defaults);
  minimum_edition = some (get_or "0" o.minimum_edition);
  maximum_edition = some (get_or "0" o.maximum_edition);
}

abbrev nothing : FeatureSetDefaultsPartial
nothing = record { defaults = none; minimum_edition = none; maximum_edition = none }

-- `create(base)`; `base ?? {}`
unfoldable pub create : Option FeatureSetDefaultsPartial → FeatureSetDefaults
unfolding from_partial
create base = from_partial (get_or nothing base)

-- The message with its missing values at their defaults.
unfoldable pub fill : FeatureSetDefaults → FeatureSetDefaults
fill m = record {
  defaults = map FeatureSetDefaultsFeatureSetEditionDefault.fill m.defaults;
  minimum_edition = some (get_or "0" m.minimum_edition);
  maximum_edition = some (get_or "0" m.maximum_edition);
}

module _ (e : Runtime) where
  -- The wire format: the fields in the order of their writes, defaults left out.
  unfoldable pub bytes : FeatureSetDefaults → Bytes e
  bytes m =
      field_messages e.wire (FeatureSetDefaultsFeatureSetEditionDefault.bytes e) 10 m.defaults
      ++ bytes_or e (int32 e) 32 "0" m.minimum_edition
      ++ bytes_or e (int32 e) 40 "0" m.maximum_edition

  -- The numbers of the message fit their fields.
  abbrev pub Fits : Enums → FeatureSetDefaults → Type 0
  Fits enums m =
      OnList (FeatureSetDefaultsFeatureSetEditionDefault.Fits e enums) m.defaults
      × OnOption (Edition.Json.Fits e enums) m.minimum_edition
      × OnOption (Edition.Json.Fits e enums) m.maximum_edition

  module _ (laws : RuntimeLaws e) where
    pub runs :
        (m : FeatureSetDefaults)
        → Fits numbered m
        → Runs e.wire laws.wire (field e) (encode e m) (bytes m) create_base (fill m)
    unfolding encode bytes field create_base fill
    runs m fits =
        Runs-list e.wire laws.wire (FeatureSetDefaultsFeatureSetEditionDefault.codec e laws) 10
          m.defaults (λ v k. record k { defaults = v }) refl fits.0 (λ self before k r. refl) refl
        ⨾ Runs-int32 e laws "0" 32 m.minimum_edition (λ v k. record k { minimum_edition = v }) refl
            fits.1 (λ self k r. refl) refl
        ⨾ Runs-int32 e laws "0" 40 m.maximum_edition (λ v k. record k { maximum_edition = v }) refl
            fits.2 (λ self k r. refl) refl

    pub IsTotal-field : IsTotal e.wire laws.wire (field e)
    unfolding field
    IsTotal-field self tag m r h =
        (some_case r 1 10 tag _ (
            message-Ends e.wire laws.wire (FeatureSetDefaultsFeatureSetEditionDefault.codec e laws)
              r _)
          ◃ int32_case e laws r 4 32 tag _
          ◃ int32_case e laws r 5 40 tag _
          ◃ no_case).ends

    pub decode-loop :
        (r : In e) (len : Option ℕ)
        → decode e r len ≡ decode_with e.wire (field e) create_base r len
    unfolding decode
    decode-loop r len = refl

    abbrev pub codec : Codec e.wire FeatureSetDefaults
    codec =
        codec_of e.wire laws.wire (encode e) (decode e) (field e) create_base bytes fill
          (Fits numbered) decode-loop runs IsTotal-field

pub json_codec :
    (e : Runtime) → RuntimeLaws e → JsonCodec (to_json e) (from_json e) fill (Fits e named)
unfolding from_json to_json fill
json_codec e laws = record {
  from-to = λ m fits. simp (
    proto_laws,
    array-fill (FeatureSetDefaultsFeatureSetEditionDefault.json_codec e laws) m.defaults fits.0,
    either_or-default (Edition.Json.scalar-kept "0") m.minimum_edition fits.1,
    either_or-default (Edition.Json.scalar-kept "0") m.maximum_edition fits.2,
  );
  shown = λ m. is_set-obj _;
}

-- All of a message, as an argument of `fromPartial`.
abbrev pub whole : FeatureSetDefaults → FeatureSetDefaultsPartial
whole m = record {
  defaults = some (map FeatureSetDefaultsFeatureSetEditionDefault.whole m.defaults);
  minimum_edition = m.minimum_edition;
  maximum_edition = m.maximum_edition;
}

pub fills : Fills whole from_partial fill
unfolding from_partial create_base fill
fills = record {
  fills = λ m. rw (map-fill FeatureSetDefaultsFeatureSetEditionDefault.fills m.defaults) refl;
}
