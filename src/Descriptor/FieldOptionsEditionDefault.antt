-- ===== src/Descriptor/FieldOptionsEditionDefault.antt =====
-- `FieldOptions_EditionDefault` of web/src/generated/google/protobuf/descriptor.ts: the message and
-- its generated functions.
use sample_grpc_service.Prelude.{ℕ, ◌≡◌, refl, String, Option, none, some, ◌++◌}
use sample_grpc_service.Prelude.Outcome.{Outcome, ok, ◌>>=◌}
use sample_grpc_service.Partial.{get_or, Fills}
use sample_grpc_service.Wire.{Field, on_case, ◌▸◌, ◌◃◌, decode_with}
use sample_grpc_service.Wire.Loop.{IsTotal}
use sample_grpc_service.Wire.Cases.{no_case}
use sample_grpc_service.Wire.Runs.{Runs, ◌⨾◌, OnOption}
use sample_grpc_service.Wire.Codec.{Codec, codec_of}
use sample_grpc_service.Js.{Js, obj}
use sample_grpc_service.Js.Laws.{is_set-obj}
use sample_grpc_service.Js.Codec.{JsonCodec}
use sample_grpc_service.Proto.{Runtime, Bytes, In, Out, text, int32, write_or, read}
use sample_grpc_service.Proto.Laws.{RuntimeLaws}
use sample_grpc_service.Proto.Runs.{bytes_or}
use sample_grpc_service.Proto.Totals.{text_case, int32_case}
use sample_grpc_service.Proto.Kept.{Enums, numbered, named, Runs-text, Runs-int32}
use sample_grpc_service.Proto.Json.{no_props, js_text, field_or, set_or}
use sample_grpc_service.Proto.Json.Laws.{proto_laws, value_or-default}
use sample_grpc_service.Descriptor.Edition

pub record FieldOptionsEditionDefault : Type 0 where
  pub edition : Option String
  pub value : Option String

-- What `fromPartial` takes: each property may be missing, `null` or `undefined`.
abbrev pub FieldOptionsEditionDefaultPartial : Type 0
FieldOptionsEditionDefaultPartial = FieldOptionsEditionDefault

unfoldable pub create_base : FieldOptionsEditionDefault
create_base = record { edition = some "0"; value = some "" }

module _ (e : Runtime) where
  unfoldable pub encode : FieldOptionsEditionDefault → Out e → Out e
  encode m x = x ▸ write_or e (int32 e) 24 "0" m.edition ▸ write_or e (text e) 18 "" m.value

  -- The `switch` of `decode`.
  unfoldable pub field : Field e.wire FieldOptionsEditionDefault
  field self tag m r =
      on_case 3 24 tag (read e (int32 e) r (λ v. record m { edition = some v }))
      ◃ on_case 2 18 tag (read e (text e) r (λ v. record m { value = some v }))
      ◃ none

  unfoldable pub decode : In e → Option ℕ → Outcome (FieldOptionsEditionDefault × In e)
  unfolding create_base
  decode r len = decode_with e.wire field create_base r len

  unfoldable pub from_json : Js → Outcome FieldOptionsEditionDefault
  from_json o = do
    edition' ← field_or Edition.scalar "edition" "0" o
    value' ← field_or js_text "value" "" o
    ok (record { edition = edition'; value = value' })

  unfoldable pub to_json : FieldOptionsEditionDefault → Js
  to_json m =
      obj (
        no_props
        ▸ set_or Edition.scalar "edition" "0" m.edition
        ▸ set_or js_text "value" "" m.value)

unfoldable pub from_partial : FieldOptionsEditionDefaultPartial → FieldOptionsEditionDefault
unfolding create_base
from_partial o = record create_base {
  edition = some (get_or "0" o.edition);
  value = some (get_or "" o.value);
}

abbrev nothing : FieldOptionsEditionDefaultPartial
nothing = record { edition = none; value = none }

-- `create(base)`; `base ?? {}`
unfoldable pub create : Option FieldOptionsEditionDefaultPartial → FieldOptionsEditionDefault
unfolding from_partial
create base = from_partial (get_or nothing base)

-- The message with its missing values at their defaults.
unfoldable pub fill : FieldOptionsEditionDefault → FieldOptionsEditionDefault
fill m = record { edition = some (get_or "0" m.edition); value = some (get_or "" m.value) }

module _ (e : Runtime) where
  -- The wire format: the fields in the order of their writes, defaults left out.
  unfoldable pub bytes : FieldOptionsEditionDefault → Bytes e
  bytes m = bytes_or e (int32 e) 24 "0" m.edition ++ bytes_or e (text e) 18 "" m.value

  -- The numbers of the message fit their fields.
  abbrev pub Fits : Enums → FieldOptionsEditionDefault → Type 0
  Fits enums m = OnOption (Edition.Json.Fits e enums) m.edition

  module _ (laws : RuntimeLaws e) where
    pub runs :
        (m : FieldOptionsEditionDefault)
        → Fits numbered m
        → Runs e.wire laws.wire (field e) (encode e m) (bytes m) create_base (fill m)
    unfolding encode bytes field create_base fill
    runs m fits =
        Runs-int32 e laws "0" 24 m.edition (λ v k. record k { edition = v }) refl fits
          (λ self k r. refl) refl
        ⨾ Runs-text e laws "" 18 m.value (λ v k. record k { value = v }) refl (λ self k r. refl)
            refl

    pub IsTotal-field : IsTotal e.wire laws.wire (field e)
    unfolding field
    IsTotal-field self tag m r h =
        (int32_case e laws r 3 24 tag _ ◃ text_case e laws r 2 18 tag _ ◃ no_case).ends

    pub decode-loop :
        (r : In e) (len : Option ℕ)
        → decode e r len ≡ decode_with e.wire (field e) create_base r len
    unfolding decode
    decode-loop r len = refl

    abbrev pub codec : Codec e.wire FieldOptionsEditionDefault
    codec =
        codec_of e.wire laws.wire (encode e) (decode e) (field e) create_base bytes fill
          (Fits numbered) decode-loop runs IsTotal-field

pub json_codec :
    (e : Runtime) → RuntimeLaws e → JsonCodec (to_json e) (from_json e) fill (Fits e named)
unfolding from_json to_json fill
json_codec e laws = record {
  from-to =
      λ m fits. simp (proto_laws, value_or-default (Edition.Json.scalar-kept "0") m.edition fits);
  shown = λ m. is_set-obj _;
}

-- All of a message, as an argument of `fromPartial`.
abbrev pub whole : FieldOptionsEditionDefault → FieldOptionsEditionDefaultPartial
whole m = m

pub fills : Fills whole from_partial fill
unfolding from_partial create_base fill
fills = record { fills = λ m. refl }
