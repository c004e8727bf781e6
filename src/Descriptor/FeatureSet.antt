-- ===== src/Descriptor/FeatureSet.antt =====
-- `FeatureSet` of web/src/generated/google/protobuf/descriptor.ts: the message and its generated
-- functions.
use sample_grpc_service.Prelude.{ℕ, ◌≡◌, refl, String, Option, none, some, ◌++◌}
use sample_grpc_service.Prelude.Outcome.{Outcome, ok, ◌>>=◌}
use sample_grpc_service.Partial.{get_or, Fills}
use sample_grpc_service.Wire.{Field, on_case, ◌▸◌, ◌◃◌, decode_with}
use sample_grpc_service.Wire.Loop.{IsTotal}
use sample_grpc_service.Wire.Cases.{no_case}
use sample_grpc_service.Wire.Runs.{Runs, ◌⨾◌, OnOption}
use sample_grpc_service.Wire.Codec.{Codec, codec_of}
use sample_grpc_service.Js.{Js, obj}
use sample_grpc_service.Js.Laws.{is_set-obj}
use sample_grpc_service.Js.Codec.{JsonCodec}
use sample_grpc_service.Proto.{Runtime, Bytes, In, Out, int32, write_or, read}
use sample_grpc_service.Proto.Laws.{RuntimeLaws}
use sample_grpc_service.Proto.Runs.{bytes_or}
use sample_grpc_service.Proto.Totals.{int32_case}
use sample_grpc_service.Proto.Kept.{Enums, numbered, named, Runs-int32}
use sample_grpc_service.Proto.Json.{no_props, field_either, set_or}
use sample_grpc_service.Proto.Json.Laws.{proto_laws, either_or-default}
use sample_grpc_service.Descriptor.FeatureSetFieldPresence
use sample_grpc_service.Descriptor.FeatureSetEnumType
use sample_grpc_service.Descriptor.FeatureSetRepeatedFieldEncoding
use sample_grpc_service.Descriptor.FeatureSetUtf8Validation
use sample_grpc_service.Descriptor.FeatureSetMessageEncoding
use sample_grpc_service.Descriptor.FeatureSetJsonFormat
use sample_grpc_service.Descriptor.FeatureSetEnforceNamingStyle

pub record FeatureSet : Type 0 where
  pub field_presence : Option String
  pub enum_type : Option String
  pub repeated_field_encoding : Option String
  pub utf8_validation : Option String
  pub message_encoding : Option String
  pub json_format : Option String
  pub enforce_naming_style : Option String

-- What `fromPartial` takes: each property may be missing, `null` or `undefined`.
abbrev pub FeatureSetPartial : Type 0
FeatureSetPartial = FeatureSet

unfoldable pub create_base : FeatureSet
create_base = record {
  field_presence = some "0";
  enum_type = some "0";
  repeated_field_encoding = some "0";
  utf8_validation = some "0";
  message_encoding = some "0";
  json_format = some "0";
  enforce_naming_style = some "0";
}

module _ (e : Runtime) where
  unfoldable pub encode : FeatureSet → Out e → Out e
  encode m x =
      x
      ▸ write_or e (int32 e) 8 "0" m.field_presence
      ▸ write_or e (int32 e) 16 "0" m.enum_type
      ▸ write_or e (int32 e) 24 "0" m.repeated_field_encoding
      ▸ write_or e (int32 e) 32 "0" m.utf8_validation
      ▸ write_or e (int32 e) 40 "0" m.message_encoding
      ▸ write_or e (int32 e) 48 "0" m.json_format
      ▸ write_or e (int32 e) 56 "0" m.enforce_naming_style

  -- The `switch` of `decode`.
  unfoldable pub field : Field e.wire FeatureSet
  field self tag m r =
      on_case 1 8 tag (read e (int32 e) r (λ v. record m { field_presence = some v }))
      ◃ on_case 2 16 tag (read e (int32 e) r (λ v. record m { enum_type = some v }))
      ◃ on_case 3 24 tag (read e (int32 e) r (λ v. record m { repeated_field_encoding = some v }))
      ◃ on_case 4 32 tag (read e (int32 e) r (λ v. record m { utf8_validation = some v }))
      ◃ on_case 5 40 tag (read e (int32 e) r (λ v. record m { message_encoding = some v }))
      ◃ on_case 6 48 tag (read e (int32 e) r (λ v. record m { json_format = some v }))
      ◃ on_case 7 56 tag (read e (int32 e) r (λ v. record m { enforce_naming_style = some v }))
      ◃ none

  unfoldable pub decode : In e → Option ℕ → Outcome (FeatureSet × In e)
  unfolding create_base
  decode r len = decode_with e.wire field create_base r len

  unfoldable pub from_json : Js → Outcome FeatureSet
  from_json o = do
    field_presence' ←
        field_either FeatureSetFieldPresence.scalar "fieldPresence" "field_presence" "0" o
    enum_type' ← field_either FeatureSetEnumType.scalar "enumType" "enum_type" "0" o
    repeated_field_encoding' ←
        field_either FeatureSetRepeatedFieldEncoding.scalar "repeatedFieldEncoding"
          "repeated_field_encoding" "0" o
    utf8_validation' ←
        field_either FeatureSetUtf8Validation.scalar "utf8Validation" "utf8_validation" "0" o
    message_encoding' ←
        field_either FeatureSetMessageEncoding.scalar "messageEncoding" "message_encoding" "0" o
    json_format' ← field_either FeatureSetJsonFormat.scalar "jsonFormat" "json_format" "0" o
    enforce_naming_style' ←
        field_either FeatureSetEnforceNamingStyle.scalar "enforceNamingStyle" "enforce_naming_style"
          "0" o
    ok (record {
      field_presence = field_presence';
      enum_type = enum_type';
      repeated_field_encoding = repeated_field_encoding';
      utf8_validation = utf8_validation';
      message_encoding = message_encoding';
      json_format = json_format';
      enforce_naming_style = enforce_naming_style';
    })

  unfoldable pub to_json : FeatureSet → Js
  to_json m = obj (
      no_props
      ▸ set_or FeatureSetFieldPresence.scalar "fieldPresence" "0" m.field_presence
      ▸ set_or FeatureSetEnumType.scalar "enumType" "0" m.enum_type
      ▸ set_or FeatureSetRepeatedFieldEncoding.scalar "repeatedFieldEncoding" "0"
          m.repeated_field_encoding
      ▸ set_or FeatureSetUtf8Validation.scalar "utf8Validation" "0" m.utf8_validation
      ▸ set_or FeatureSetMessageEncoding.scalar "messageEncoding" "0" m.message_encoding
      ▸ set_or FeatureSetJsonFormat.scalar "jsonFormat" "0" m.json_format
      ▸ set_or FeatureSetEnforceNamingStyle.scalar "enforceNamingStyle" "0" m.enforce_naming_style)

unfoldable pub from_partial : FeatureSetPartial → FeatureSet
unfolding create_base
from_partial o = record create_base {
  field_presence = some (get_or "0" o.field_presence);
  enum_type = some (get_or "0" o.enum_type);
  repeated_field_encoding = some (get_or "0" o.repeated_field_encoding);
  utf8_validation = some (get_or "0" o.utf8_validation);
  message_encoding = some (get_or "0" o.message_encoding);
  json_format = some (get_or "0" o.json_format);
  enforce_naming_style = some (get_or "0" o.enforce_naming_style);
}

abbrev nothing : FeatureSetPartial
nothing = record {
  field_presence = none;
  enum_type = none;
  repeated_field_encoding = none;
  utf8_validation = none;
  message_encoding = none;
  json_format = none;
  enforce_naming_style = none;
}

-- `create(base)`; `base ?? {}`
unfoldable pub create : Option FeatureSetPartial → FeatureSet
unfolding from_partial
create base = from_partial (get_or nothing base)

-- The message with its missing values at their defaults.
unfoldable pub fill : FeatureSet → FeatureSet
fill m = record {
  field_presence = some (get_or "0" m.field_presence);
  enum_type = some (get_or "0" m.enum_type);
  repeated_field_encoding = some (get_or "0" m.repeated_field_encoding);
  utf8_validation = some (get_or "0" m.utf8_validation);
  message_encoding = some (get_or "0" m.message_encoding);
  json_format = some (get_or "0" m.json_format);
  enforce_naming_style = some (get_or "0" m.enforce_naming_style);
}

module _ (e : Runtime) where
  -- The wire format: the fields in the order of their writes, defaults left out.
  unfoldable pub bytes : FeatureSet → Bytes e
  bytes m =
      bytes_or e (int32 e) 8 "0" m.field_presence
      ++ bytes_or e (int32 e) 16 "0" m.enum_type
      ++ bytes_or e (int32 e) 24 "0" m.repeated_field_encoding
      ++ bytes_or e (int32 e) 32 "0" m.utf8_validation
      ++ bytes_or e (int32 e) 40 "0" m.message_encoding
      ++ bytes_or e (int32 e) 48 "0" m.json_format
      ++ bytes_or e (int32 e) 56 "0" m.enforce_naming_style

  -- The numbers of the message fit their fields.
  abbrev pub Fits : Enums → FeatureSet → Type 0
  Fits enums m =
      OnOption (FeatureSetFieldPresence.Json.Fits e enums) m.field_presence
      × OnOption (FeatureSetEnumType.Json.Fits e enums) m.enum_type
      × OnOption (FeatureSetRepeatedFieldEncoding.Json.Fits e enums) m.repeated_field_encoding
      × OnOption (FeatureSetUtf8Validation.Json.Fits e enums) m.utf8_validation
      × OnOption (FeatureSetMessageEncoding.Json.Fits e enums) m.message_encoding
      × OnOption (FeatureSetJsonFormat.Json.Fits e enums) m.json_format
      × OnOption (FeatureSetEnforceNamingStyle.Json.Fits e enums) m.enforce_naming_style

  module _ (laws : RuntimeLaws e) where
    pub runs :
        (m : FeatureSet)
        → Fits numbered m
        → Runs e.wire laws.wire (field e) (encode e m) (bytes m) create_base (fill m)
    unfolding encode bytes field create_base fill
    runs m fits =
        Runs-int32 e laws "0" 8 m.field_presence (λ v k. record k { field_presence = v }) refl
          fits.0 (λ self k r. refl) refl
        ⨾ Runs-int32 e laws "0" 16 m.enum_type (λ v k. record k { enum_type = v }) refl fits.1
            (λ self k r. refl) refl
        ⨾ Runs-int32 e laws "0" 24 m.repeated_field_encoding
            (λ v k. record k { repeated_field_encoding = v }) refl fits.2 (λ self k r. refl) refl
        ⨾ Runs-int32 e laws "0" 32 m.utf8_validation (λ v k. record k { utf8_validation = v }) refl
            fits.3 (λ self k r. refl) refl
        ⨾ Runs-int32 e laws "0" 40 m.message_encoding (λ v k. record k { message_encoding = v })
            refl fits.4 (λ self k r. refl) refl
        ⨾ Runs-int32 e laws "0" 48 m.json_format (λ v k. record k { json_format = v }) refl fits.5
            (λ self k r. refl) refl
        ⨾ Runs-int32 e laws "0" 56 m.enforce_naming_style
            (λ v k. record k { enforce_naming_style = v }) refl fits.6 (λ self k r. refl) refl

    pub IsTotal-field : IsTotal e.wire laws.wire (field e)
    unfolding field
    IsTotal-field self tag m r h =
        (int32_case e laws r 1 8 tag _
          ◃ int32_case e laws r 2 16 tag _
          ◃ int32_case e laws r 3 24 tag _
          ◃ int32_case e laws r 4 32 tag _
          ◃ int32_case e laws r 5 40 tag _
          ◃ int32_case e laws r 6 48 tag _
          ◃ int32_case e laws r 7 56 tag _
          ◃ no_case).ends

    pub decode-loop :
        (r : In e) (len : Option ℕ)
        → decode e r len ≡ decode_with e.wire (field e) create_base r len
    unfolding decode
    decode-loop r len = refl

    abbrev pub codec : Codec e.wire FeatureSet
    codec =
        codec_of e.wire laws.wire (encode e) (decode e) (field e) create_base bytes fill
          (Fits numbered) decode-loop runs IsTotal-field

pub json_codec :
    (e : Runtime) → RuntimeLaws e → JsonCodec (to_json e) (from_json e) fill (Fits e named)
unfolding from_json to_json fill
json_codec e laws = record {
  from-to = λ m fits. simp (
    proto_laws,
    either_or-default (FeatureSetFieldPresence.Json.scalar-kept "0") m.field_presence fits.0,
    either_or-default (FeatureSetEnumType.Json.scalar-kept "0") m.enum_type fits.1,
    either_or-default (FeatureSetRepeatedFieldEncoding.Json.scalar-kept "0")
        m.repeated_field_encoding fits.2,
    either_or-default (FeatureSetUtf8Validation.Json.scalar-kept "0") m.utf8_validation fits.3,
    either_or-default (FeatureSetMessageEncoding.Json.scalar-kept "0") m.message_encoding fits.4,
    either_or-default (FeatureSetJsonFormat.Json.scalar-kept "0") m.json_format fits.5,
    either_or-default (FeatureSetEnforceNamingStyle.Json.scalar-kept "0") m.enforce_naming_style
        fits.6,
  );
  shown = λ m. is_set-obj _;
}

-- All of a message, as an argument of `fromPartial`.
abbrev pub whole : FeatureSet → FeatureSetPartial
whole m = m

pub fills : Fills whole from_partial fill
unfolding from_partial create_base fill
fills = record { fills = λ m. refl }
