-- ===== src/Descriptor/GeneratedCodeInfoAnnotation.antt =====
-- `GeneratedCodeInfo_Annotation` of web/src/generated/google/protobuf/descriptor.ts: the message
-- and its generated functions.
use sample_grpc_service.Prelude.{ℕ, ◌≡◌, refl, String, Option, none, some, List, [], ◌∷◌, ◌++◌, map}
use sample_grpc_service.Prelude.Outcome.{Outcome, ok, ◌>>=◌}
use sample_grpc_service.Partial.{get_or, Fills}
use sample_grpc_service.Wire.{Field, on_case, ◌▸◌, ◌◃◌, decode_with}
use sample_grpc_service.Wire.Loop.{IsTotal}
use sample_grpc_service.Wire.Cases.{no_case}
use sample_grpc_service.Wire.Runs.{Runs, ◌⨾◌, OnOption, OnList}
use sample_grpc_service.Wire.Codec.{Codec, codec_of}
use sample_grpc_service.Js.{Js, obj, get_prop?, set_array, array_field}
use sample_grpc_service.Js.Laws.{is_set-obj}
use sample_grpc_service.Js.Codec.{JsonCodec, array-fill}
use sample_grpc_service.Proto.{
  Runtime, Bytes, In, Out, text, int32, write_or, write_packed, read, read_packed, on_either,
}
use sample_grpc_service.Proto.Laws.{RuntimeLaws, Passes}
use sample_grpc_service.Proto.Runs.{bytes_or}
use sample_grpc_service.Proto.Packed.{Runs-packed, bytes_packed}
use sample_grpc_service.Proto.Totals.{text_case, int32_case, ints_case}
use sample_grpc_service.Proto.Kept.{Enums, numbered, named, Runs-text, Runs-int32}
use sample_grpc_service.Proto.Json.{no_props, js_text, js_integer, field_or, field_either, set_or}
use sample_grpc_service.Proto.Json.Agrees.{js_integer-agrees, js_integer-kept}
use sample_grpc_service.Proto.Json.Laws.{proto_laws, value_or-default, scalar_codec}
use sample_grpc_service.Descriptor.GeneratedCodeInfoAnnotationSemantic
use mathlib.Core.Option

pub record GeneratedCodeInfoAnnotation : Type 0 where
  pub path : List String
  pub source_file : Option String
  pub begin : Option String
  pub end : Option String
  pub semantic : Option String

-- What `fromPartial` takes: each property may be missing, `null` or `undefined`.
pub record GeneratedCodeInfoAnnotationPartial : Type 0 where
  pub path : Option (List String)
  pub source_file : Option String
  pub begin : Option String
  pub end : Option String
  pub semantic : Option String

unfoldable pub create_base : GeneratedCodeInfoAnnotation
create_base = record {
  path = [];
  source_file = some "";
  begin = some "0";
  end = some "0";
  semantic = some "0";
}

module _ (e : Runtime) where
  unfoldable pub encode : GeneratedCodeInfoAnnotation → Out e → Out e
  encode m x =
      x
      ▸ write_packed e (int32 e) 10 m.path
      ▸ write_or e (text e) 18 "" m.source_file
      ▸ write_or e (int32 e) 24 "0" m.begin
      ▸ write_or e (int32 e) 32 "0" m.end
      ▸ write_or e (int32 e) 40 "0" m.semantic

  -- The `switch` of `decode`.
  unfoldable pub field : Field e.wire GeneratedCodeInfoAnnotation
  field self tag m r =
      on_either 1 8 10 tag (read e (int32 e) r (λ v. record m { path = m.path ++ (v ∷ []) }))
        (read_packed e (int32 e) r m (λ v k. record k { path = k.path ++ (v ∷ []) }))
      ◃ on_case 2 18 tag (read e (text e) r (λ v. record m { source_file = some v }))
      ◃ on_case 3 24 tag (read e (int32 e) r (λ v. record m { begin = some v }))
      ◃ on_case 4 32 tag (read e (int32 e) r (λ v. record m { end = some v }))
      ◃ on_case 5 40 tag (read e (int32 e) r (λ v. record m { semantic = some v }))
      ◃ none

  unfoldable pub decode : In e → Option ℕ → Outcome (GeneratedCodeInfoAnnotation × In e)
  unfolding create_base
  decode r len = decode_with e.wire field create_base r len

  unfoldable pub from_json : Js → Outcome GeneratedCodeInfoAnnotation
  from_json o = do
    path' ← array_field (js_integer e).from (get_prop? "path" o)
    source_file' ← field_either js_text "sourceFile" "source_file" "" o
    begin' ← field_or (js_integer e) "begin" "0" o
    end' ← field_or (js_integer e) "end" "0" o
    semantic' ← field_or GeneratedCodeInfoAnnotationSemantic.scalar "semantic" "0" o
    ok (record {
      path = path';
      source_file = source_file';
      begin = begin';
      end = end';
      semantic = semantic';
    })

  unfoldable pub to_json : GeneratedCodeInfoAnnotation → Js
  to_json m = obj (
      no_props
      ▸ set_array "path" (js_integer e).to m.path
      ▸ set_or js_text "sourceFile" "" m.source_file
      ▸ set_or (js_integer e) "begin" "0" m.begin
      ▸ set_or (js_integer e) "end" "0" m.end
      ▸ set_or GeneratedCodeInfoAnnotationSemantic.scalar "semantic" "0" m.semantic)

unfoldable pub from_partial : GeneratedCodeInfoAnnotationPartial → GeneratedCodeInfoAnnotation
unfolding create_base
from_partial o = record create_base {
  path = get_or [] (Option.map (map (λ v. v)) o.path);
  source_file = some (get_or "" o.source_file);
  begin = some (get_or "0" o.begin);
  end = some (get_or "0" o.end);
  semantic = some (get_or "0" o.semantic);
}

abbrev nothing : GeneratedCodeInfoAnnotationPartial
nothing = record { path = none; source_file = none; begin = none; end = none; semantic = none }

-- `create(base)`; `base ?? {}`
unfoldable pub create : Option GeneratedCodeInfoAnnotationPartial → GeneratedCodeInfoAnnotation
unfolding from_partial
create base = from_partial (get_or nothing base)

-- The message with its missing values at their defaults.
unfoldable pub fill : GeneratedCodeInfoAnnotation → GeneratedCodeInfoAnnotation
fill m = record {
  path = map (λ v. v) m.path;
  source_file = some (get_or "" m.source_file);
  begin = some (get_or "0" m.begin);
  end = some (get_or "0" m.end);
  semantic = some (get_or "0" m.semantic);
}

module _ (e : Runtime) where
  -- The wire format: the fields in the order of their writes, defaults left out.
  unfoldable pub bytes : GeneratedCodeInfoAnnotation → Bytes e
  bytes m =
      bytes_packed e 10 m.path
      ++ bytes_or e (text e) 18 "" m.source_file
      ++ bytes_or e (int32 e) 24 "0" m.begin
      ++ bytes_or e (int32 e) 32 "0" m.end
      ++ bytes_or e (int32 e) 40 "0" m.semantic

  -- The numbers of the message fit their fields.
  abbrev pub Fits : Enums → GeneratedCodeInfoAnnotation → Type 0
  Fits enums m =
      OnList (Passes e.is_int32) m.path
      × OnOption (Passes e.is_int32) m.begin
      × OnOption (Passes e.is_int32) m.end
      × OnOption (GeneratedCodeInfoAnnotationSemantic.Json.Fits e enums) m.semantic

  module _ (laws : RuntimeLaws e) where
    pub runs :
        (m : GeneratedCodeInfoAnnotation)
        → Fits numbered m
        → Runs e.wire laws.wire (field e) (encode e m) (bytes m) create_base (fill m)
    unfolding encode bytes field create_base fill
    runs m fits =
        Runs-packed e laws 10 m.path (λ v k. record k { path = v })
          (λ v k. record k { path = k.path ++ (v ∷ []) }) refl fits.0 (λ self k r. refl)
          (λ v l. refl) refl
        ⨾ Runs-text e laws "" 18 m.source_file (λ v k. record k { source_file = v }) refl
            (λ self k r. refl) refl
        ⨾ Runs-int32 e laws "0" 24 m.begin (λ v k. record k { begin = v }) refl fits.1
            (λ self k r. refl) refl
        ⨾ Runs-int32 e laws "0" 32 m.end (λ v k. record k { end = v }) refl fits.2
            (λ self k r. refl) refl
        ⨾ Runs-int32 e laws "0" 40 m.semantic (λ v k. record k { semantic = v }) refl fits.3
            (λ self k r. refl) refl

    pub IsTotal-field : IsTotal e.wire laws.wire (field e)
    unfolding field
    IsTotal-field self tag m r h =
        (ints_case e laws r 1 8 tag 10 m _ _
          ◃ text_case e laws r 2 18 tag _
          ◃ int32_case e laws r 3 24 tag _
          ◃ int32_case e laws r 4 32 tag _
          ◃ int32_case e laws r 5 40 tag _
          ◃ no_case).ends

    pub decode-loop :
        (r : In e) (len : Option ℕ)
        → decode e r len ≡ decode_with e.wire (field e) create_base r len
    unfolding decode
    decode-loop r len = refl

    abbrev pub codec : Codec e.wire GeneratedCodeInfoAnnotation
    codec =
        codec_of e.wire laws.wire (encode e) (decode e) (field e) create_base bytes fill
          (Fits numbered) decode-loop runs IsTotal-field

pub json_codec :
    (e : Runtime) → RuntimeLaws e → JsonCodec (to_json e) (from_json e) fill (Fits e named)
unfolding from_json to_json fill
json_codec e laws = record {
  from-to = λ m fits. simp (
    proto_laws,
    array-fill (scalar_codec (js_integer-agrees e laws laws.round_int32)) m.path fits.0,
    value_or-default (js_integer-kept e laws laws.round_int32 "0") m.begin fits.1,
    value_or-default (js_integer-kept e laws laws.round_int32 "0") m.end fits.2,
    value_or-default (GeneratedCodeInfoAnnotationSemantic.Json.scalar-kept "0") m.semantic fits.3,
  );
  shown = λ m. is_set-obj _;
}

-- All of a message, as an argument of `fromPartial`.
abbrev pub whole : GeneratedCodeInfoAnnotation → GeneratedCodeInfoAnnotationPartial
whole m = record {
  path = some m.path;
  source_file = m.source_file;
  begin = m.begin;
  end = m.end;
  semantic = m.semantic;
}

pub fills : Fills whole from_partial fill
unfolding from_partial create_base fill
fills = record { fills = λ m. refl }
