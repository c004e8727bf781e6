-- ===== src/Descriptor/SourceCodeInfo.antt =====
-- `SourceCodeInfo` of web/src/generated/google/protobuf/descriptor.ts: the message and its
-- generated functions.
use sample_grpc_service.Prelude.{ℕ, ◌≡◌, refl, Option, none, some, List, [], ◌∷◌, ◌++◌, map}
use sample_grpc_service.Prelude.Outcome.{Outcome, ok, ◌>>=◌}
use sample_grpc_service.Partial.{get_or, Fills, map-fill}
use sample_grpc_service.Wire.{Field, on_case, ◌▸◌, ◌◃◌, write_messages, decode_with, read_message}
use sample_grpc_service.Wire.Loop.{IsTotal}
use sample_grpc_service.Wire.Cases.{no_case, some_case}
use sample_grpc_service.Wire.Writes.{field_messages}
use sample_grpc_service.Wire.Runs.{Runs, OnList}
use sample_grpc_service.Wire.Codec.{Codec, codec_of, Runs-list, message-Ends}
use sample_grpc_service.Js.{Js, obj, get_prop?, set_array, array_field}
use sample_grpc_service.Js.Laws.{is_set-obj}
use sample_grpc_service.Js.Codec.{JsonCodec, array-fill}
use sample_grpc_service.Proto.{Runtime, Bytes, In, Out}
use sample_grpc_service.Proto.Laws.{RuntimeLaws}
use sample_grpc_service.Proto.Kept.{Enums, numbered, named}
use sample_grpc_service.Proto.Json.{no_props}
use sample_grpc_service.Proto.Json.Laws.{proto_laws}
use sample_grpc_service.Descriptor.SourceCodeInfoLocation
use sample_grpc_service.Descriptor.SourceCodeInfoLocation.{
  SourceCodeInfoLocation, SourceCodeInfoLocationPartial,
}
use mathlib.Core.Option

pub record SourceCodeInfo : Type 0 where
  pub location : List SourceCodeInfoLocation

-- What `fromPartial` takes: each property may be missing, `null` or `undefined`.
pub record SourceCodeInfoPartial : Type 0 where
  pub location : Option (List SourceCodeInfoLocationPartial)

unfoldable pub create_base : SourceCodeInfo
create_base = record { location = [] }

module _ (e : Runtime) where
  unfoldable pub encode : SourceCodeInfo → Out e → Out e
  encode m x = x ▸ write_messages e.wire (SourceCodeInfoLocation.encode e) 10 m.location

  -- The `switch` of `decode`.
  unfoldable pub field : Field e.wire SourceCodeInfo
  field self tag m r =
      on_case 1 10 tag (
        read_message e.wire (SourceCodeInfoLocation.decode e) r
          (λ v. record m { location = m.location ++ (v ∷ []) }))
      ◃ none

  unfoldable pub decode : In e → Option ℕ → Outcome (SourceCodeInfo × In e)
  unfolding create_base
  decode r len = decode_with e.wire field create_base r len

  unfoldable pub from_json : Js → Outcome SourceCodeInfo
  from_json o = do
    location' ← array_field (SourceCodeInfoLocation.from_json e) (get_prop? "location" o)
    ok (record { location = location' })

  unfoldable pub to_json : SourceCodeInfo → Js
  to_json m = obj (no_props ▸ set_array "location" (SourceCodeInfoLocation.to_json e) m.location)

unfoldable pub from_partial : SourceCodeInfoPartial → SourceCodeInfo
unfolding create_base
from_partial o = record create_base {
  location = get_or [] (Option.map (map SourceCodeInfoLocation.from_partial) o.location);
}

abbrev nothing : SourceCodeInfoPartial
nothing = record { location = none }

-- `create(base)`; `base ?? {}`
unfoldable pub create : Option SourceCodeInfoPartial → SourceCodeInfo
unfolding from_partial
create base = from_partial (get_or nothing base)

-- The message with its missing values at their defaults.
unfoldable pub fill : SourceCodeInfo → SourceCodeInfo
fill m = record { location = map SourceCodeInfoLocation.fill m.location }

module _ (e : Runtime) where
  -- The wire format: the fields in the order of their writes, defaults left out.
  unfoldable pub bytes : SourceCodeInfo → Bytes e
  bytes m = field_messages e.wire (SourceCodeInfoLocation.bytes e) 10 m.location

  -- The numbers of the message fit their fields.
  abbrev pub Fits : Enums → SourceCodeInfo → Type 0
  Fits enums m = OnList (SourceCodeInfoLocation.Fits e enums) m.location

  module _ (laws : RuntimeLaws e) where
    pub runs :
        (m : SourceCodeInfo)
        → Fits numbered m
        → Runs e.wire laws.wire (field e) (encode e m) (bytes m) create_base (fill m)
    unfolding encode bytes field create_base fill
    runs m fits =
        Runs-list e.wire laws.wire (SourceCodeInfoLocation.codec e laws) 10 m.location
          (λ v k. record k { location = v }) refl fits (λ self before k r. refl) refl

    pub IsTotal-field : IsTotal e.wire laws.wire (field e)
    unfolding field
    IsTotal-field self tag m r h =
        (some_case r 1 10 tag _
            (message-Ends e.wire laws.wire (SourceCodeInfoLocation.codec e laws) r _)
          ◃ no_case).ends

    pub decode-loop :
        (r : In e) (len : Option ℕ)
        → decode e r len ≡ decode_with e.wire (field e) create_base r len
    unfolding decode
    decode-loop r len = refl

    abbrev pub codec : Codec e.wire SourceCodeInfo
    codec =
        codec_of e.wire laws.wire (encode e) (decode e) (field e) create_base bytes fill
          (Fits numbered) decode-loop runs IsTotal-field

pub json_codec :
    (e : Runtime) → RuntimeLaws e → JsonCodec (to_json e) (from_json e) fill (Fits e named)
unfolding from_json to_json fill
json_codec e laws = record {
  from-to = λ m fits.
      simp (proto_laws, array-fill (SourceCodeInfoLocation.json_codec e laws) m.location fits);
  shown = λ m. is_set-obj _;
}

-- All of a message, as an argument of `fromPartial`.
abbrev pub whole : SourceCodeInfo → SourceCodeInfoPartial
whole m = record { location = some (map SourceCodeInfoLocation.whole m.location) }

pub fills : Fills whole from_partial fill
unfolding from_partial create_base fill
fills = record { fills = λ m. rw (map-fill SourceCodeInfoLocation.fills m.location) refl }
