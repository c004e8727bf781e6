-- ===== src/Descriptor/FieldDescriptorProto/RoundTrip.antt =====
-- `encode` and `decode` of FieldDescriptorProto in
-- web/src/generated/google/protobuf/descriptor.ts: the bytes of a message, and the loop over them.
use sample_grpc_service.Prelude.{ℕ, ◌≡◌, refl, false, Option, ◌++◌}
use sample_grpc_service.Wire.{◌◃◌, decode_with}
use sample_grpc_service.Wire.Loop.{IsTotal}
use sample_grpc_service.Wire.Cases.{no_case, some_case}
use sample_grpc_service.Wire.Writes.{field_message?}
use sample_grpc_service.Wire.Runs.{Runs, ◌⨾◌, OnOption}
use sample_grpc_service.Wire.Codec.{Codec, codec_of, Runs-message?, message-Ends}
use sample_grpc_service.Proto.{Runtime, Bytes, In, text, flag, int32}
use sample_grpc_service.Proto.Laws.{RuntimeLaws, Passes}
use sample_grpc_service.Proto.Runs.{bytes_or}
use sample_grpc_service.Proto.Totals.{text_case, flag_case, int32_case}
use sample_grpc_service.Proto.Kept.{Enums, numbered, Runs-text, Runs-flag, Runs-int32}
use sample_grpc_service.Descriptor.FieldDescriptorProtoLabel
use sample_grpc_service.Descriptor.FieldDescriptorProtoType
use sample_grpc_service.Descriptor.FieldOptions
use sample_grpc_service.Descriptor.FieldDescriptorProto.{
  FieldDescriptorProto, create_base, encode, field, decode, fill,
}

module _ (e : Runtime) where
  -- The wire format: the fields in the order of their writes, defaults left out.
  unfoldable pub bytes : FieldDescriptorProto → Bytes e
  bytes m =
      bytes_or e (text e) 10 "" m.name
      ++ bytes_or e (int32 e) 24 "0" m.number
      ++ bytes_or e (int32 e) 32 "1" m.label
      ++ bytes_or e (int32 e) 40 "1" m.type
      ++ bytes_or e (text e) 50 "" m.type_name
      ++ bytes_or e (text e) 18 "" m.extendee
      ++ bytes_or e (text e) 58 "" m.default_value
      ++ bytes_or e (int32 e) 72 "0" m.oneof_index
      ++ bytes_or e (text e) 82 "" m.json_name
      ++ field_message? e.wire (FieldOptions.RoundTrip.bytes e) 66 m.options
      ++ bytes_or e (flag e) 136 false m.proto3_optional

  -- The numbers of the message fit their fields.
  abbrev pub Fits : Enums → FieldDescriptorProto → Type 0
  Fits enums m =
      OnOption (Passes e.is_int32) m.number
      × OnOption (FieldDescriptorProtoLabel.Json.Fits e enums) m.label
      × OnOption (FieldDescriptorProtoType.Json.Fits e enums) m.type
      × OnOption (Passes e.is_int32) m.oneof_index
      × OnOption (FieldOptions.RoundTrip.Fits e enums) m.options

  module _ (laws : RuntimeLaws e) where
    pub runs :
        (m : FieldDescriptorProto)
        → Fits numbered m
        → Runs e.wire laws.wire (field e) (encode e m) (bytes m) create_base (fill m)
    unfolding encode bytes field create_base fill
    runs m fits =
        Runs-text e laws "" 10 m.name (λ v k. record k { name = v }) refl (λ self k r. refl) refl
        ⨾ Runs-int32 e laws "0" 24 m.number (λ v k. record k { number = v }) refl fits.0
            (λ self k r. refl) refl
        ⨾ Runs-int32 e laws "1" 32 m.label (λ v k. record k { label = v }) refl fits.1
            (λ self k r. refl) refl
        ⨾ Runs-int32 e laws "1" 40 m.type (λ v k. record k { type = v }) refl fits.2
            (λ self k r. refl) refl
        ⨾ Runs-text e laws "" 50 m.type_name (λ v k. record k { type_name = v }) refl
            (λ self k r. refl) refl
        ⨾ Runs-text e laws "" 18 m.extendee (λ v k. record k { extendee = v }) refl
            (λ self k r. refl) refl
        ⨾ Runs-text e laws "" 58 m.default_value (λ v k. record k { default_value = v }) refl
            (λ self k r. refl) refl
        ⨾ Runs-int32 e laws "0" 72 m.oneof_index (λ v k. record k { oneof_index = v }) refl fits.3
            (λ self k r. refl) refl
        ⨾ Runs-text e laws "" 82 m.json_name (λ v k. record k { json_name = v }) refl
            (λ self k r. refl) refl
        ⨾ Runs-message? e.wire laws.wire (FieldOptions.RoundTrip.codec e laws) 66 m.options
            (λ v k. record k { options = v }) refl fits.4 (λ self k r. refl) refl
        ⨾ Runs-flag e laws false 136 m.proto3_optional (λ v k. record k { proto3_optional = v })
            refl (λ self k r. refl) refl

    pub IsTotal-field : IsTotal e.wire laws.wire (field e)
    unfolding field
    IsTotal-field self tag m r h =
        (text_case e laws r 1 10 tag _
          ◃ int32_case e laws r 3 24 tag _
          ◃ int32_case e laws r 4 32 tag _
          ◃ int32_case e laws r 5 40 tag _
          ◃ text_case e laws r 6 50 tag _
          ◃ text_case e laws r 2 18 tag _
          ◃ text_case e laws r 7 58 tag _
          ◃ int32_case e laws r 9 72 tag _
          ◃ text_case e laws r 10 82 tag _
          ◃ some_case r 8 66 tag _
              (message-Ends e.wire laws.wire (FieldOptions.RoundTrip.codec e laws) r _)
          ◃ flag_case e laws r 17 136 tag _
          ◃ no_case).ends

    pub decode-loop :
        (r : In e) (len : Option ℕ)
        → decode e r len ≡ decode_with e.wire (field e) create_base r len
    unfolding decode
    decode-loop r len = refl

    abbrev pub codec : Codec e.wire FieldDescriptorProto
    codec =
        codec_of e.wire laws.wire (encode e) (decode e) (field e) create_base bytes fill
          (Fits numbered) decode-loop runs IsTotal-field
