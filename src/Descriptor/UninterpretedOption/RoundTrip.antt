-- ===== src/Descriptor/UninterpretedOption/RoundTrip.antt =====
-- `encode` and `decode` of UninterpretedOption in
-- web/src/generated/google/protobuf/descriptor.ts: the bytes of a message, and the loop over them.
use sample_grpc_service.Prelude.{ℕ, ◌≡◌, refl, Option, [], ◌++◌}
use sample_grpc_service.Wire.{◌◃◌, decode_with}
use sample_grpc_service.Wire.Loop.{IsTotal}
use sample_grpc_service.Wire.Cases.{no_case, some_case}
use sample_grpc_service.Wire.Writes.{field_messages}
use sample_grpc_service.Wire.Runs.{Runs, ◌⨾◌, OnOption, OnList}
use sample_grpc_service.Wire.Codec.{Codec, codec_of, Runs-list, message-Ends}
use sample_grpc_service.Proto.{Runtime, Bytes, In, are_bytes, text, uint64, int64, double, raw}
use sample_grpc_service.Proto.Laws.{RuntimeLaws, Passes, uint64_lem, int64_lem}
use sample_grpc_service.Proto.Runs.{Runs-or, bytes_or}
use sample_grpc_service.Proto.Totals.{scalar_case, text_case}
use sample_grpc_service.Proto.Kept.{
  Enums, numbered, Runs-text, uint64-Kept, int64-Kept, double-Kept, raw-Kept,
}
use sample_grpc_service.Descriptor.UninterpretedOptionNamePart
use sample_grpc_service.Descriptor.UninterpretedOption.{
  UninterpretedOption, create_base, encode, field, decode, fill,
}

module _ (e : Runtime) where
  -- The wire format: the fields in the order of their writes, defaults left out.
  unfoldable pub bytes : UninterpretedOption → Bytes e
  bytes m =
      field_messages e.wire (UninterpretedOptionNamePart.bytes e) 18 m.name
      ++ bytes_or e (text e) 26 "" m.identifier_value
      ++ bytes_or e (uint64 e) 32 "0" m.positive_int_value
      ++ bytes_or e (int64 e) 40 "0" m.negative_int_value
      ++ bytes_or e (double e) 49 "0" m.double_value
      ++ bytes_or e (raw e) 58 [] m.string_value
      ++ bytes_or e (text e) 66 "" m.aggregate_value

  -- The numbers of the message fit their fields.
  abbrev pub Fits : Enums → UninterpretedOption → Type 0
  Fits enums m =
      OnList (UninterpretedOptionNamePart.Fits e enums) m.name
      × OnOption (Passes e.is_uint64) m.positive_int_value
      × OnOption (Passes e.is_int64) m.negative_int_value
      × OnOption (Passes e.is_double) m.double_value
      × OnOption (Passes are_bytes) m.string_value

  module _ (laws : RuntimeLaws e) where
    pub runs :
        (m : UninterpretedOption)
        → Fits numbered m
        → Runs e.wire laws.wire (field e) (encode e m) (bytes m) create_base (fill m)
    unfolding encode bytes field create_base fill
    runs m fits =
        Runs-list e.wire laws.wire (UninterpretedOptionNamePart.codec e laws) 18 m.name
          (λ v k. record k { name = v }) refl fits.0 (λ self before k r. refl) refl
        ⨾ Runs-text e laws "" 26 m.identifier_value (λ v k. record k { identifier_value = v }) refl
            (λ self k r. refl) refl
        ⨾ Runs-or e laws (uint64-Kept e laws "0") 32 m.positive_int_value
            (λ v k. record k { positive_int_value = v }) refl fits.1 (λ self k r. refl) refl
        ⨾ Runs-or e laws (int64-Kept e laws "0") 40 m.negative_int_value
            (λ v k. record k { negative_int_value = v }) refl fits.2 (λ self k r. refl) refl
        ⨾ Runs-or e laws (double-Kept e laws "0") 49 m.double_value
            (λ v k. record k { double_value = v }) refl fits.3 (λ self k r. refl) refl
        ⨾ Runs-or e laws (raw-Kept e laws) 58 m.string_value (λ v k. record k { string_value = v })
            refl fits.4 (λ self k r. refl) refl
        ⨾ Runs-text e laws "" 66 m.aggregate_value (λ v k. record k { aggregate_value = v }) refl
            (λ self k r. refl) refl

    pub IsTotal-field : IsTotal e.wire laws.wire (field e)
    unfolding field
    IsTotal-field self tag m r h =
        (some_case r 2 18 tag _
            (message-Ends e.wire laws.wire (UninterpretedOptionNamePart.codec e laws) r _)
          ◃ text_case e laws r 3 26 tag _
          ◃ scalar_case e laws r 4 32 tag (uint64 e) (uint64_lem e laws) _
          ◃ scalar_case e laws r 5 40 tag (int64 e) (int64_lem e laws) _
          ◃ scalar_case e laws r 6 49 tag (double e) laws.double_lem _
          ◃ scalar_case e laws r 7 58 tag (raw e) laws.raw_lem _
          ◃ text_case e laws r 8 66 tag _
          ◃ no_case).ends

    pub decode-loop :
        (r : In e) (len : Option ℕ)
        → decode e r len ≡ decode_with e.wire (field e) create_base r len
    unfolding decode
    decode-loop r len = refl

    abbrev pub codec : Codec e.wire UninterpretedOption
    codec =
        codec_of e.wire laws.wire (encode e) (decode e) (field e) create_base bytes fill
          (Fits numbered) decode-loop runs IsTotal-field
