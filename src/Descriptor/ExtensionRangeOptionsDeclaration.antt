-- ===== src/Descriptor/ExtensionRangeOptionsDeclaration.antt =====
-- `ExtensionRangeOptions_Declaration` of web/src/generated/google/protobuf/descriptor.ts: the
-- message and its generated functions.
use sample_grpc_service.Prelude.{ℕ, ◌≡◌, refl, String, Bool, false, Option, none, some, ◌++◌}
use sample_grpc_service.Prelude.Outcome.{Outcome, ok, ◌>>=◌}
use sample_grpc_service.Partial.{get_or, Fills}
use sample_grpc_service.Wire.{Field, on_case, ◌▸◌, ◌◃◌, decode_with}
use sample_grpc_service.Wire.Loop.{IsTotal}
use sample_grpc_service.Wire.Cases.{no_case}
use sample_grpc_service.Wire.Runs.{Runs, ◌⨾◌, OnOption}
use sample_grpc_service.Wire.Codec.{Codec, codec_of}
use sample_grpc_service.Js.{Js, obj}
use sample_grpc_service.Js.Laws.{is_set-obj}
use sample_grpc_service.Js.Codec.{JsonCodec}
use sample_grpc_service.Proto.{Runtime, Bytes, In, Out, text, flag, int32, write_or, read}
use sample_grpc_service.Proto.Laws.{RuntimeLaws, Passes}
use sample_grpc_service.Proto.Runs.{bytes_or}
use sample_grpc_service.Proto.Totals.{text_case, flag_case, int32_case}
use sample_grpc_service.Proto.Kept.{Enums, numbered, named, Runs-text, Runs-flag, Runs-int32}
use sample_grpc_service.Proto.Json.{
  no_props, js_text, js_flag, js_integer, field_or, field_either, set_or,
}
use sample_grpc_service.Proto.Json.Agrees.{js_integer-kept}
use sample_grpc_service.Proto.Json.Laws.{proto_laws, value_or-default}

pub record ExtensionRangeOptionsDeclaration : Type 0 where
  pub number : Option String
  pub full_name : Option String
  pub type : Option String
  pub reserved : Option Bool
  pub repeated : Option Bool

-- What `fromPartial` takes: each property may be missing, `null` or `undefined`.
abbrev pub ExtensionRangeOptionsDeclarationPartial : Type 0
ExtensionRangeOptionsDeclarationPartial = ExtensionRangeOptionsDeclaration

unfoldable pub create_base : ExtensionRangeOptionsDeclaration
create_base = record {
  number = some "0";
  full_name = some "";
  type = some "";
  reserved = some false;
  repeated = some false;
}

module _ (e : Runtime) where
  unfoldable pub encode : ExtensionRangeOptionsDeclaration → Out e → Out e
  encode m x =
      x
      ▸ write_or e (int32 e) 8 "0" m.number
      ▸ write_or e (text e) 18 "" m.full_name
      ▸ write_or e (text e) 26 "" m.type
      ▸ write_or e (flag e) 40 false m.reserved
      ▸ write_or e (flag e) 48 false m.repeated

  -- The `switch` of `decode`.
  unfoldable pub field : Field e.wire ExtensionRangeOptionsDeclaration
  field self tag m r =
      on_case 1 8 tag (read e (int32 e) r (λ v. record m { number = some v }))
      ◃ on_case 2 18 tag (read e (text e) r (λ v. record m { full_name = some v }))
      ◃ on_case 3 26 tag (read e (text e) r (λ v. record m { type = some v }))
      ◃ on_case 5 40 tag (read e (flag e) r (λ v. record m { reserved = some v }))
      ◃ on_case 6 48 tag (read e (flag e) r (λ v. record m { repeated = some v }))
      ◃ none

  unfoldable pub decode : In e → Option ℕ → Outcome (ExtensionRangeOptionsDeclaration × In e)
  unfolding create_base
  decode r len = decode_with e.wire field create_base r len

  unfoldable pub from_json : Js → Outcome ExtensionRangeOptionsDeclaration
  from_json o = do
    number' ← field_or (js_integer e) "number" "0" o
    full_name' ← field_either js_text "fullName" "full_name" "" o
    type' ← field_or js_text "type" "" o
    reserved' ← field_or js_flag "reserved" false o
    repeated' ← field_or js_flag "repeated" false o
    ok (record {
      number = number';
      full_name = full_name';
      type = type';
      reserved = reserved';
      repeated = repeated';
    })

  unfoldable pub to_json : ExtensionRangeOptionsDeclaration → Js
  to_json m = obj (
      no_props
      ▸ set_or (js_integer e) "number" "0" m.number
      ▸ set_or js_text "fullName" "" m.full_name
      ▸ set_or js_text "type" "" m.type
      ▸ set_or js_flag "reserved" false m.reserved
      ▸ set_or js_flag "repeated" false m.repeated)

unfoldable pub from_partial :
    ExtensionRangeOptionsDeclarationPartial → ExtensionRangeOptionsDeclaration
unfolding create_base
from_partial o = record create_base {
  number = some (get_or "0" o.number);
  full_name = some (get_or "" o.full_name);
  type = some (get_or "" o.type);
  reserved = some (get_or false o.reserved);
  repeated = some (get_or false o.repeated);
}

abbrev nothing : ExtensionRangeOptionsDeclarationPartial
nothing = record { number = none; full_name = none; type = none; reserved = none; repeated = none }

-- `create(base)`; `base ?? {}`
unfoldable pub create :
    Option ExtensionRangeOptionsDeclarationPartial → ExtensionRangeOptionsDeclaration
unfolding from_partial
create base = from_partial (get_or nothing base)

-- The message with its missing values at their defaults.
unfoldable pub fill : ExtensionRangeOptionsDeclaration → ExtensionRangeOptionsDeclaration
fill m = record {
  number = some (get_or "0" m.number);
  full_name = some (get_or "" m.full_name);
  type = some (get_or "" m.type);
  reserved = some (get_or false m.reserved);
  repeated = some (get_or false m.repeated);
}

module _ (e : Runtime) where
  -- The wire format: the fields in the order of their writes, defaults left out.
  unfoldable pub bytes : ExtensionRangeOptionsDeclaration → Bytes e
  bytes m =
      bytes_or e (int32 e) 8 "0" m.number
      ++ bytes_or e (text e) 18 "" m.full_name
      ++ bytes_or e (text e) 26 "" m.type
      ++ bytes_or e (flag e) 40 false m.reserved
      ++ bytes_or e (flag e) 48 false m.repeated

  -- The numbers of the message fit their fields.
  abbrev pub Fits : Enums → ExtensionRangeOptionsDeclaration → Type 0
  Fits enums m = OnOption (Passes e.is_int32) m.number

  module _ (laws : RuntimeLaws e) where
    pub runs :
        (m : ExtensionRangeOptionsDeclaration)
        → Fits numbered m
        → Runs e.wire laws.wire (field e) (encode e m) (bytes m) create_base (fill m)
    unfolding encode bytes field create_base fill
    runs m fits =
        Runs-int32 e laws "0" 8 m.number (λ v k. record k { number = v }) refl fits
          (λ self k r. refl) refl
        ⨾ Runs-text e laws "" 18 m.full_name (λ v k. record k { full_name = v }) refl
            (λ self k r. refl) refl
        ⨾ Runs-text e laws "" 26 m.type (λ v k. record k { type = v }) refl (λ self k r. refl) refl
        ⨾ Runs-flag e laws false 40 m.reserved (λ v k. record k { reserved = v }) refl
            (λ self k r. refl) refl
        ⨾ Runs-flag e laws false 48 m.repeated (λ v k. record k { repeated = v }) refl
            (λ self k r. refl) refl

    pub IsTotal-field : IsTotal e.wire laws.wire (field e)
    unfolding field
    IsTotal-field self tag m r h =
        (int32_case e laws r 1 8 tag _
          ◃ text_case e laws r 2 18 tag _
          ◃ text_case e laws r 3 26 tag _
          ◃ flag_case e laws r 5 40 tag _
          ◃ flag_case e laws r 6 48 tag _
          ◃ no_case).ends

    pub decode-loop :
        (r : In e) (len : Option ℕ)
        → decode e r len ≡ decode_with e.wire (field e) create_base r len
    unfolding decode
    decode-loop r len = refl

    abbrev pub codec : Codec e.wire ExtensionRangeOptionsDeclaration
    codec =
        codec_of e.wire laws.wire (encode e) (decode e) (field e) create_base bytes fill
          (Fits numbered) decode-loop runs IsTotal-field

pub json_codec :
    (e : Runtime) → RuntimeLaws e → JsonCodec (to_json e) (from_json e) fill (Fits e named)
unfolding from_json to_json fill
json_codec e laws = record {
  from-to = λ m fits.
      simp
        (proto_laws, value_or-default (js_integer-kept e laws laws.round_int32 "0") m.number fits);
  shown = λ m. is_set-obj _;
}

-- All of a message, as an argument of `fromPartial`.
abbrev pub whole : ExtensionRangeOptionsDeclaration → ExtensionRangeOptionsDeclarationPartial
whole m = m

pub fills : Fills whole from_partial fill
unfolding from_partial create_base fill
fills = record { fills = λ m. refl }
