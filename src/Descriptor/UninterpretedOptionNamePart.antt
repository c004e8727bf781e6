-- ===== src/Descriptor/UninterpretedOptionNamePart.antt =====
-- `UninterpretedOption_NamePart` of web/src/generated/google/protobuf/descriptor.ts: the message
-- and its generated functions.
use sample_grpc_service.Prelude.{ℕ, ◌≡◌, refl, String, Bool, false, Option, none, some, ◌++◌}
use sample_grpc_service.Prelude.Outcome.{Outcome, ok, ◌>>=◌}
use sample_grpc_service.Partial.{get_or, Fills}
use sample_grpc_service.Wire.{
  Field, on_case, ◌▸◌, ◌◃◌, write_string, write_bool, decode_with, read_string, read_bool,
}
use sample_grpc_service.Wire.Loop.{IsTotal}
use sample_grpc_service.Wire.Cases.{no_case, string_case, bool_case}
use sample_grpc_service.Wire.Writes.{field_string, field_bool}
use sample_grpc_service.Wire.Runs.{Runs, ◌⨾◌, Runs-string, Runs-bool}
use sample_grpc_service.Wire.Codec.{Codec, codec_of}
use sample_grpc_service.Js.{Js, obj, string_field_either, bool_field_either, set_string, set_bool}
use sample_grpc_service.Js.Laws.{is_set-obj}
use sample_grpc_service.Js.Codec.{JsonCodec}
use sample_grpc_service.Proto.{Runtime, Bytes, In, Out}
use sample_grpc_service.Proto.Laws.{RuntimeLaws}
use sample_grpc_service.Proto.Kept.{Enums, numbered, named}
use sample_grpc_service.Proto.Json.{no_props}
use sample_grpc_service.Proto.Json.Laws.{proto_laws}

pub record UninterpretedOptionNamePart : Type 0 where
  pub name_part : String
  pub is_extension : Bool

-- What `fromPartial` takes: each property may be missing, `null` or `undefined`.
pub record UninterpretedOptionNamePartPartial : Type 0 where
  pub name_part : Option String
  pub is_extension : Option Bool

unfoldable pub create_base : UninterpretedOptionNamePart
create_base = record { name_part = ""; is_extension = false }

module _ (e : Runtime) where
  unfoldable pub encode : UninterpretedOptionNamePart → Out e → Out e
  encode m x = x ▸ write_string e.wire 10 m.name_part ▸ write_bool e.wire 16 m.is_extension

  -- The `switch` of `decode`.
  unfoldable pub field : Field e.wire UninterpretedOptionNamePart
  field self tag m r =
      on_case 1 10 tag (read_string e.wire r (λ v. record m { name_part = v }))
      ◃ on_case 2 16 tag (read_bool e.wire r (λ v. record m { is_extension = v }))
      ◃ none

  unfoldable pub decode : In e → Option ℕ → Outcome (UninterpretedOptionNamePart × In e)
  unfolding create_base
  decode r len = decode_with e.wire field create_base r len

  unfoldable pub from_json : Js → Outcome UninterpretedOptionNamePart
  from_json o = do
    name_part' ← string_field_either "namePart" "name_part" o
    is_extension' ← bool_field_either "isExtension" "is_extension" o
    ok (record { name_part = name_part'; is_extension = is_extension' })

  unfoldable pub to_json : UninterpretedOptionNamePart → Js
  to_json m =
      obj (no_props ▸ set_string "namePart" m.name_part ▸ set_bool "isExtension" m.is_extension)

unfoldable pub from_partial : UninterpretedOptionNamePartPartial → UninterpretedOptionNamePart
unfolding create_base
from_partial o = record create_base {
  name_part = get_or "" o.name_part;
  is_extension = get_or false o.is_extension;
}

abbrev nothing : UninterpretedOptionNamePartPartial
nothing = record { name_part = none; is_extension = none }

-- `create(base)`; `base ?? {}`
unfoldable pub create : Option UninterpretedOptionNamePartPartial → UninterpretedOptionNamePart
unfolding from_partial
create base = from_partial (get_or nothing base)

-- The message with its missing values at their defaults.
unfoldable pub fill : UninterpretedOptionNamePart → UninterpretedOptionNamePart
fill m = record { name_part = m.name_part; is_extension = m.is_extension }

module _ (e : Runtime) where
  -- The wire format: the fields in the order of their writes, defaults left out.
  unfoldable pub bytes : UninterpretedOptionNamePart → Bytes e
  bytes m = field_string e.wire 10 m.name_part ++ field_bool e.wire 16 m.is_extension

  -- The numbers of the message fit their fields.
  abbrev pub Fits : Enums → UninterpretedOptionNamePart → Type 0
  Fits enums m = Unit

  module _ (laws : RuntimeLaws e) where
    pub runs :
        (m : UninterpretedOptionNamePart)
        → Fits numbered m
        → Runs e.wire laws.wire (field e) (encode e m) (bytes m) create_base (fill m)
    unfolding encode bytes field create_base fill
    runs m fits =
        Runs-string e.wire laws.wire 10 m.name_part (λ v k. record k { name_part = v }) refl
          (λ self k r. refl) refl
        ⨾ Runs-bool e.wire laws.wire 16 m.is_extension (λ v k. record k { is_extension = v }) refl
            (λ self k r. refl) refl

    pub IsTotal-field : IsTotal e.wire laws.wire (field e)
    unfolding field
    IsTotal-field self tag m r h =
        (string_case e.wire laws.wire r 1 10 tag _
          ◃ bool_case e.wire laws.wire r 2 16 tag _
          ◃ no_case).ends

    pub decode-loop :
        (r : In e) (len : Option ℕ)
        → decode e r len ≡ decode_with e.wire (field e) create_base r len
    unfolding decode
    decode-loop r len = refl

    abbrev pub codec : Codec e.wire UninterpretedOptionNamePart
    codec =
        codec_of e.wire laws.wire (encode e) (decode e) (field e) create_base bytes fill
          (Fits numbered) decode-loop runs IsTotal-field

pub json_codec :
    (e : Runtime) → RuntimeLaws e → JsonCodec (to_json e) (from_json e) fill (Fits e named)
unfolding from_json to_json fill
json_codec e laws = record { from-to = λ m fits. simp proto_laws; shown = λ m. is_set-obj _ }

-- All of a message, as an argument of `fromPartial`.
abbrev pub whole : UninterpretedOptionNamePart → UninterpretedOptionNamePartPartial
whole m = record { name_part = some m.name_part; is_extension = some m.is_extension }

pub fills : Fills whole from_partial fill
unfolding from_partial create_base fill
fills = record { fills = λ m. refl }
