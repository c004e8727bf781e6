-- ===== src/Descriptor/SourceCodeInfoLocation.antt =====
-- `SourceCodeInfo_Location` of web/src/generated/google/protobuf/descriptor.ts: the message and its
-- generated functions.
use sample_grpc_service.Prelude.{ℕ, ◌≡◌, refl, String, Option, none, some, List, [], ◌∷◌, ◌++◌, map}
use sample_grpc_service.Prelude.Outcome.{Outcome, ok, ◌>>=◌}
use sample_grpc_service.Partial.{get_or, Fills}
use sample_grpc_service.Wire.{Field, on_case, ◌▸◌, ◌◃◌, decode_with}
use sample_grpc_service.Wire.Loop.{IsTotal}
use sample_grpc_service.Wire.Cases.{no_case}
use sample_grpc_service.Wire.Runs.{Runs, ◌⨾◌, OnList, Any-list}
use sample_grpc_service.Wire.Codec.{Codec, codec_of}
use sample_grpc_service.Js.{Js, obj, get_prop?, set_array, array_field}
use sample_grpc_service.Js.Laws.{is_set-obj}
use sample_grpc_service.Js.Codec.{JsonCodec, array-fill}
use sample_grpc_service.Proto.{
  Runtime, Bytes, In, Out, text, int32, write_or, write_each, write_packed, read, read_packed,
  on_either,
}
use sample_grpc_service.Proto.Laws.{RuntimeLaws, Passes}
use sample_grpc_service.Proto.Runs.{bytes_or, bytes_each}
use sample_grpc_service.Proto.Packed.{Runs-packed, bytes_packed}
use sample_grpc_service.Proto.Totals.{text_case, ints_case}
use sample_grpc_service.Proto.Kept.{Enums, numbered, named, Runs-text, Runs-texts}
use sample_grpc_service.Proto.Json.{
  no_props, js_text, js_integer, field_either, set_or, array_either,
}
use sample_grpc_service.Proto.Json.Agrees.{js_text-agrees, js_integer-agrees}
use sample_grpc_service.Proto.Json.Laws.{proto_laws, array_either-fill, scalar_codec}
use mathlib.Core.Option

pub record SourceCodeInfoLocation : Type 0 where
  pub path : List String
  pub span : List String
  pub leading_comments : Option String
  pub trailing_comments : Option String
  pub leading_detached_comments : List String

-- What `fromPartial` takes: each property may be missing, `null` or `undefined`.
pub record SourceCodeInfoLocationPartial : Type 0 where
  pub path : Option (List String)
  pub span : Option (List String)
  pub leading_comments : Option String
  pub trailing_comments : Option String
  pub leading_detached_comments : Option (List String)

unfoldable pub create_base : SourceCodeInfoLocation
create_base = record {
  path = [];
  span = [];
  leading_comments = some "";
  trailing_comments = some "";
  leading_detached_comments = [];
}

module _ (e : Runtime) where
  unfoldable pub encode : SourceCodeInfoLocation → Out e → Out e
  encode m x =
      x
      ▸ write_packed e (int32 e) 10 m.path
      ▸ write_packed e (int32 e) 18 m.span
      ▸ write_or e (text e) 26 "" m.leading_comments
      ▸ write_or e (text e) 34 "" m.trailing_comments
      ▸ write_each e (text e) 50 m.leading_detached_comments

  -- The `switch` of `decode`.
  unfoldable pub field : Field e.wire SourceCodeInfoLocation
  field self tag m r =
      on_either 1 8 10 tag (read e (int32 e) r (λ v. record m { path = m.path ++ (v ∷ []) }))
        (read_packed e (int32 e) r m (λ v k. record k { path = k.path ++ (v ∷ []) }))
      ◃ on_either 2 16 18 tag (read e (int32 e) r (λ v. record m { span = m.span ++ (v ∷ []) }))
          (read_packed e (int32 e) r m (λ v k. record k { span = k.span ++ (v ∷ []) }))
      ◃ on_case 3 26 tag (read e (text e) r (λ v. record m { leading_comments = some v }))
      ◃ on_case 4 34 tag (read e (text e) r (λ v. record m { trailing_comments = some v }))
      ◃ on_case 6 50 tag (
          read e (text e) r
            (λ v. record m { leading_detached_comments = m.leading_detached_comments ++ (v ∷ []) }))
      ◃ none

  unfoldable pub decode : In e → Option ℕ → Outcome (SourceCodeInfoLocation × In e)
  unfolding create_base
  decode r len = decode_with e.wire field create_base r len

  unfoldable pub from_json : Js → Outcome SourceCodeInfoLocation
  from_json o = do
    path' ← array_field (js_integer e).from (get_prop? "path" o)
    span' ← array_field (js_integer e).from (get_prop? "span" o)
    leading_comments' ← field_either js_text "leadingComments" "leading_comments" "" o
    trailing_comments' ← field_either js_text "trailingComments" "trailing_comments" "" o
    leading_detached_comments' ←
        array_either js_text.from (get_prop? "leadingDetachedComments" o)
          (get_prop? "leading_detached_comments" o)
    ok (record {
      path = path';
      span = span';
      leading_comments = leading_comments';
      trailing_comments = trailing_comments';
      leading_detached_comments = leading_detached_comments';
    })

  unfoldable pub to_json : SourceCodeInfoLocation → Js
  to_json m = obj (
      no_props
      ▸ set_array "path" (js_integer e).to m.path
      ▸ set_array "span" (js_integer e).to m.span
      ▸ set_or js_text "leadingComments" "" m.leading_comments
      ▸ set_or js_text "trailingComments" "" m.trailing_comments
      ▸ set_array "leadingDetachedComments" js_text.to m.leading_detached_comments)

unfoldable pub from_partial : SourceCodeInfoLocationPartial → SourceCodeInfoLocation
unfolding create_base
from_partial o = record create_base {
  path = get_or [] (Option.map (map (λ v. v)) o.path);
  span = get_or [] (Option.map (map (λ v. v)) o.span);
  leading_comments = some (get_or "" o.leading_comments);
  trailing_comments = some (get_or "" o.trailing_comments);
  leading_detached_comments = get_or [] (Option.map (map (λ v. v)) o.leading_detached_comments);
}

abbrev nothing : SourceCodeInfoLocationPartial
nothing = record {
  path = none;
  span = none;
  leading_comments = none;
  trailing_comments = none;
  leading_detached_comments = none;
}

-- `create(base)`; `base ?? {}`
unfoldable pub create : Option SourceCodeInfoLocationPartial → SourceCodeInfoLocation
unfolding from_partial
create base = from_partial (get_or nothing base)

-- The message with its missing values at their defaults.
unfoldable pub fill : SourceCodeInfoLocation → SourceCodeInfoLocation
fill m = record {
  path = map (λ v. v) m.path;
  span = map (λ v. v) m.span;
  leading_comments = some (get_or "" m.leading_comments);
  trailing_comments = some (get_or "" m.trailing_comments);
  leading_detached_comments = map (λ v. v) m.leading_detached_comments;
}

module _ (e : Runtime) where
  -- The wire format: the fields in the order of their writes, defaults left out.
  unfoldable pub bytes : SourceCodeInfoLocation → Bytes e
  bytes m =
      bytes_packed e 10 m.path
      ++ bytes_packed e 18 m.span
      ++ bytes_or e (text e) 26 "" m.leading_comments
      ++ bytes_or e (text e) 34 "" m.trailing_comments
      ++ bytes_each e (text e) 50 m.leading_detached_comments

  -- The numbers of the message fit their fields.
  abbrev pub Fits : Enums → SourceCodeInfoLocation → Type 0
  Fits enums m = OnList (Passes e.is_int32) m.path × OnList (Passes e.is_int32) m.span

  module _ (laws : RuntimeLaws e) where
    pub runs :
        (m : SourceCodeInfoLocation)
        → Fits numbered m
        → Runs e.wire laws.wire (field e) (encode e m) (bytes m) create_base (fill m)
    unfolding encode bytes field create_base fill
    runs m fits =
        Runs-packed e laws 10 m.path (λ v k. record k { path = v })
          (λ v k. record k { path = k.path ++ (v ∷ []) }) refl fits.0 (λ self k r. refl)
          (λ v l. refl) refl
        ⨾ Runs-packed e laws 18 m.span (λ v k. record k { span = v })
            (λ v k. record k { span = k.span ++ (v ∷ []) }) refl fits.1 (λ self k r. refl)
            (λ v l. refl) refl
        ⨾ Runs-text e laws "" 26 m.leading_comments (λ v k. record k { leading_comments = v }) refl
            (λ self k r. refl) refl
        ⨾ Runs-text e laws "" 34 m.trailing_comments (λ v k. record k { trailing_comments = v })
            refl (λ self k r. refl) refl
        ⨾ Runs-texts e laws 50 m.leading_detached_comments
            (λ v k. record k { leading_detached_comments = v }) refl (λ self before k r. refl) refl

    pub IsTotal-field : IsTotal e.wire laws.wire (field e)
    unfolding field
    IsTotal-field self tag m r h =
        (ints_case e laws r 1 8 tag 10 m _ _
          ◃ ints_case e laws r 2 16 tag 18 m _ _
          ◃ text_case e laws r 3 26 tag _
          ◃ text_case e laws r 4 34 tag _
          ◃ text_case e laws r 6 50 tag _
          ◃ no_case).ends

    pub decode-loop :
        (r : In e) (len : Option ℕ)
        → decode e r len ≡ decode_with e.wire (field e) create_base r len
    unfolding decode
    decode-loop r len = refl

    abbrev pub codec : Codec e.wire SourceCodeInfoLocation
    codec =
        codec_of e.wire laws.wire (encode e) (decode e) (field e) create_base bytes fill
          (Fits numbered) decode-loop runs IsTotal-field

pub json_codec :
    (e : Runtime) → RuntimeLaws e → JsonCodec (to_json e) (from_json e) fill (Fits e named)
unfolding from_json to_json fill
json_codec e laws = record {
  from-to = λ m fits. simp (
    proto_laws,
    array-fill (scalar_codec (js_integer-agrees e laws laws.round_int32)) m.path fits.0,
    array-fill (scalar_codec (js_integer-agrees e laws laws.round_int32)) m.span fits.1,
    array_either-fill (scalar_codec js_text-agrees) m.leading_detached_comments
        (Any-list m.leading_detached_comments),
  );
  shown = λ m. is_set-obj _;
}

-- All of a message, as an argument of `fromPartial`.
abbrev pub whole : SourceCodeInfoLocation → SourceCodeInfoLocationPartial
whole m = record {
  path = some m.path;
  span = some m.span;
  leading_comments = m.leading_comments;
  trailing_comments = m.trailing_comments;
  leading_detached_comments = some m.leading_detached_comments;
}

pub fills : Fills whole from_partial fill
unfolding from_partial create_base fill
fills = record { fills = λ m. refl }
