-- ===== src/Descriptor/FieldOptionsFeatureSupport.antt =====
-- `FieldOptions_FeatureSupport` of web/src/generated/google/protobuf/descriptor.ts: the message and
-- its generated functions.
use sample_grpc_service.Prelude.{ℕ, ◌≡◌, refl, String, Option, none, some, ◌++◌}
use sample_grpc_service.Prelude.Outcome.{Outcome, ok, ◌>>=◌}
use sample_grpc_service.Partial.{get_or, Fills}
use sample_grpc_service.Wire.{Field, on_case, ◌▸◌, ◌◃◌, decode_with}
use sample_grpc_service.Wire.Loop.{IsTotal}
use sample_grpc_service.Wire.Cases.{no_case}
use sample_grpc_service.Wire.Runs.{Runs, ◌⨾◌, OnOption}
use sample_grpc_service.Wire.Codec.{Codec, codec_of}
use sample_grpc_service.Js.{Js, obj}
use sample_grpc_service.Js.Laws.{is_set-obj}
use sample_grpc_service.Js.Codec.{JsonCodec}
use sample_grpc_service.Proto.{Runtime, Bytes, In, Out, text, int32, write_or, read}
use sample_grpc_service.Proto.Laws.{RuntimeLaws}
use sample_grpc_service.Proto.Runs.{bytes_or}
use sample_grpc_service.Proto.Totals.{text_case, int32_case}
use sample_grpc_service.Proto.Kept.{Enums, numbered, named, Runs-text, Runs-int32}
use sample_grpc_service.Proto.Json.{no_props, js_text, field_either, set_or}
use sample_grpc_service.Proto.Json.Laws.{proto_laws, either_or-default}
use sample_grpc_service.Descriptor.Edition

pub record FieldOptionsFeatureSupport : Type 0 where
  pub edition_introduced : Option String
  pub edition_deprecated : Option String
  pub deprecation_warning : Option String
  pub edition_removed : Option String

-- What `fromPartial` takes: each property may be missing, `null` or `undefined`.
abbrev pub FieldOptionsFeatureSupportPartial : Type 0
FieldOptionsFeatureSupportPartial = FieldOptionsFeatureSupport

unfoldable pub create_base : FieldOptionsFeatureSupport
create_base = record {
  edition_introduced = some "0";
  edition_deprecated = some "0";
  deprecation_warning = some "";
  edition_removed = some "0";
}

module _ (e : Runtime) where
  unfoldable pub encode : FieldOptionsFeatureSupport → Out e → Out e
  encode m x =
      x
      ▸ write_or e (int32 e) 8 "0" m.edition_introduced
      ▸ write_or e (int32 e) 16 "0" m.edition_deprecated
      ▸ write_or e (text e) 26 "" m.deprecation_warning
      ▸ write_or e (int32 e) 32 "0" m.edition_removed

  -- The `switch` of `decode`.
  unfoldable pub field : Field e.wire FieldOptionsFeatureSupport
  field self tag m r =
      on_case 1 8 tag (read e (int32 e) r (λ v. record m { edition_introduced = some v }))
      ◃ on_case 2 16 tag (read e (int32 e) r (λ v. record m { edition_deprecated = some v }))
      ◃ on_case 3 26 tag (read e (text e) r (λ v. record m { deprecation_warning = some v }))
      ◃ on_case 4 32 tag (read e (int32 e) r (λ v. record m { edition_removed = some v }))
      ◃ none

  unfoldable pub decode : In e → Option ℕ → Outcome (FieldOptionsFeatureSupport × In e)
  unfolding create_base
  decode r len = decode_with e.wire field create_base r len

  unfoldable pub from_json : Js → Outcome FieldOptionsFeatureSupport
  from_json o = do
    edition_introduced' ← field_either Edition.scalar "editionIntroduced" "edition_introduced" "0" o
    edition_deprecated' ← field_either Edition.scalar "editionDeprecated" "edition_deprecated" "0" o
    deprecation_warning' ← field_either js_text "deprecationWarning" "deprecation_warning" "" o
    edition_removed' ← field_either Edition.scalar "editionRemoved" "edition_removed" "0" o
    ok (record {
      edition_introduced = edition_introduced';
      edition_deprecated = edition_deprecated';
      deprecation_warning = deprecation_warning';
      edition_removed = edition_removed';
    })

  unfoldable pub to_json : FieldOptionsFeatureSupport → Js
  to_json m = obj (
      no_props
      ▸ set_or Edition.scalar "editionIntroduced" "0" m.edition_introduced
      ▸ set_or Edition.scalar "editionDeprecated" "0" m.edition_deprecated
      ▸ set_or js_text "deprecationWarning" "" m.deprecation_warning
      ▸ set_or Edition.scalar "editionRemoved" "0" m.edition_removed)

unfoldable pub from_partial : FieldOptionsFeatureSupportPartial → FieldOptionsFeatureSupport
unfolding create_base
from_partial o = record create_base {
  edition_introduced = some (get_or "0" o.edition_introduced);
  edition_deprecated = some (get_or "0" o.edition_deprecated);
  deprecation_warning = some (get_or "" o.deprecation_warning);
  edition_removed = some (get_or "0" o.edition_removed);
}

abbrev nothing : FieldOptionsFeatureSupportPartial
nothing = record {
  edition_introduced = none;
  edition_deprecated = none;
  deprecation_warning = none;
  edition_removed = none;
}

-- `create(base)`; `base ?? {}`
unfoldable pub create : Option FieldOptionsFeatureSupportPartial → FieldOptionsFeatureSupport
unfolding from_partial
create base = from_partial (get_or nothing base)

-- The message with its missing values at their defaults.
unfoldable pub fill : FieldOptionsFeatureSupport → FieldOptionsFeatureSupport
fill m = record {
  edition_introduced = some (get_or "0" m.edition_introduced);
  edition_deprecated = some (get_or "0" m.edition_deprecated);
  deprecation_warning = some (get_or "" m.deprecation_warning);
  edition_removed = some (get_or "0" m.edition_removed);
}

module _ (e : Runtime) where
  -- The wire format: the fields in the order of their writes, defaults left out.
  unfoldable pub bytes : FieldOptionsFeatureSupport → Bytes e
  bytes m =
      bytes_or e (int32 e) 8 "0" m.edition_introduced
      ++ bytes_or e (int32 e) 16 "0" m.edition_deprecated
      ++ bytes_or e (text e) 26 "" m.deprecation_warning
      ++ bytes_or e (int32 e) 32 "0" m.edition_removed

  -- The numbers of the message fit their fields.
  abbrev pub Fits : Enums → FieldOptionsFeatureSupport → Type 0
  Fits enums m =
      OnOption (Edition.Json.Fits e enums) m.edition_introduced
      × OnOption (Edition.Json.Fits e enums) m.edition_deprecated
      × OnOption (Edition.Json.Fits e enums) m.edition_removed

  module _ (laws : RuntimeLaws e) where
    pub runs :
        (m : FieldOptionsFeatureSupport)
        → Fits numbered m
        → Runs e.wire laws.wire (field e) (encode e m) (bytes m) create_base (fill m)
    unfolding encode bytes field create_base fill
    runs m fits =
        Runs-int32 e laws "0" 8 m.edition_introduced (λ v k. record k { edition_introduced = v })
          refl fits.0 (λ self k r. refl) refl
        ⨾ Runs-int32 e laws "0" 16 m.edition_deprecated (λ v k. record k { edition_deprecated = v })
            refl fits.1 (λ self k r. refl) refl
        ⨾ Runs-text e laws "" 26 m.deprecation_warning (λ v k. record k { deprecation_warning = v })
            refl (λ self k r. refl) refl
        ⨾ Runs-int32 e laws "0" 32 m.edition_removed (λ v k. record k { edition_removed = v }) refl
            fits.2 (λ self k r. refl) refl

    pub IsTotal-field : IsTotal e.wire laws.wire (field e)
    unfolding field
    IsTotal-field self tag m r h =
        (int32_case e laws r 1 8 tag _
          ◃ int32_case e laws r 2 16 tag _
          ◃ text_case e laws r 3 26 tag _
          ◃ int32_case e laws r 4 32 tag _
          ◃ no_case).ends

    pub decode-loop :
        (r : In e) (len : Option ℕ)
        → decode e r len ≡ decode_with e.wire (field e) create_base r len
    unfolding decode
    decode-loop r len = refl

    abbrev pub codec : Codec e.wire FieldOptionsFeatureSupport
    codec =
        codec_of e.wire laws.wire (encode e) (decode e) (field e) create_base bytes fill
          (Fits numbered) decode-loop runs IsTotal-field

pub json_codec :
    (e : Runtime) → RuntimeLaws e → JsonCodec (to_json e) (from_json e) fill (Fits e named)
unfolding from_json to_json fill
json_codec e laws = record {
  from-to = λ m fits. simp (
    proto_laws,
    either_or-default (Edition.Json.scalar-kept "0") m.edition_introduced fits.0,
    either_or-default (Edition.Json.scalar-kept "0") m.edition_deprecated fits.1,
    either_or-default (Edition.Json.scalar-kept "0") m.edition_removed fits.2,
  );
  shown = λ m. is_set-obj _;
}

-- All of a message, as an argument of `fromPartial`.
abbrev pub whole : FieldOptionsFeatureSupport → FieldOptionsFeatureSupportPartial
whole m = m

pub fills : Fills whole from_partial fill
unfolding from_partial create_base fill
fills = record { fills = λ m. refl }
