-- ===== src/Descriptor/MessageOptions/RoundTrip.antt =====
-- `encode` and `decode` of MessageOptions in
-- web/src/generated/google/protobuf/descriptor.ts: the bytes of a message, and the loop over them.
use sample_grpc_service.Prelude.{ℕ, ◌≡◌, refl, false, Option, ◌++◌}
use sample_grpc_service.Wire.{◌◃◌, decode_with}
use sample_grpc_service.Wire.Loop.{IsTotal}
use sample_grpc_service.Wire.Cases.{no_case, some_case}
use sample_grpc_service.Wire.Writes.{field_message?, field_messages}
use sample_grpc_service.Wire.Runs.{Runs, ◌⨾◌, OnOption, OnList}
use sample_grpc_service.Wire.Codec.{Codec, codec_of, Runs-message?, Runs-list, message-Ends}
use sample_grpc_service.Proto.{Runtime, Bytes, In, flag}
use sample_grpc_service.Proto.Laws.{RuntimeLaws}
use sample_grpc_service.Proto.Runs.{bytes_or}
use sample_grpc_service.Proto.Totals.{flag_case}
use sample_grpc_service.Proto.Kept.{Enums, numbered, Runs-flag}
use sample_grpc_service.Descriptor.FeatureSet
use sample_grpc_service.Descriptor.UninterpretedOption
use sample_grpc_service.Descriptor.MessageOptions.{
  MessageOptions, create_base, encode, field, decode, fill,
}

module _ (e : Runtime) where
  -- The wire format: the fields in the order of their writes, defaults left out.
  unfoldable pub bytes : MessageOptions → Bytes e
  bytes m =
      bytes_or e (flag e) 8 false m.message_set_wire_format
      ++ bytes_or e (flag e) 16 false m.no_standard_descriptor_accessor
      ++ bytes_or e (flag e) 24 false m.deprecated
      ++ bytes_or e (flag e) 56 false m.map_entry
      ++ bytes_or e (flag e) 88 false m.deprecated_legacy_json_field_conflicts
      ++ field_message? e.wire (FeatureSet.bytes e) 98 m.features
      ++ field_messages e.wire (UninterpretedOption.RoundTrip.bytes e) 7994 m.uninterpreted_option

  -- The numbers of the message fit their fields.
  abbrev pub Fits : Enums → MessageOptions → Type 0
  Fits enums m =
      OnOption (FeatureSet.Fits e enums) m.features
      × OnList (UninterpretedOption.RoundTrip.Fits e enums) m.uninterpreted_option

  module _ (laws : RuntimeLaws e) where
    pub runs :
        (m : MessageOptions)
        → Fits numbered m
        → Runs e.wire laws.wire (field e) (encode e m) (bytes m) create_base (fill m)
    unfolding encode bytes field create_base fill
    runs m fits =
        Runs-flag e laws false 8 m.message_set_wire_format
          (λ v k. record k { message_set_wire_format = v }) refl (λ self k r. refl) refl
        ⨾ Runs-flag e laws false 16 m.no_standard_descriptor_accessor
            (λ v k. record k { no_standard_descriptor_accessor = v }) refl (λ self k r. refl) refl
        ⨾ Runs-flag e laws false 24 m.deprecated (λ v k. record k { deprecated = v }) refl
            (λ self k r. refl) refl
        ⨾ Runs-flag e laws false 56 m.map_entry (λ v k. record k { map_entry = v }) refl
            (λ self k r. refl) refl
        ⨾ Runs-flag e laws false 88 m.deprecated_legacy_json_field_conflicts
            (λ v k. record k { deprecated_legacy_json_field_conflicts = v }) refl (λ self k r. refl)
            refl
        ⨾ Runs-message? e.wire laws.wire (FeatureSet.codec e laws) 98 m.features
            (λ v k. record k { features = v }) refl fits.0 (λ self k r. refl) refl
        ⨾ Runs-list e.wire laws.wire (UninterpretedOption.RoundTrip.codec e laws) 7994
            m.uninterpreted_option (λ v k. record k { uninterpreted_option = v }) refl fits.1
            (λ self before k r. refl) refl

    pub IsTotal-field : IsTotal e.wire laws.wire (field e)
    unfolding field
    IsTotal-field self tag m r h =
        (flag_case e laws r 1 8 tag _
          ◃ flag_case e laws r 2 16 tag _
          ◃ flag_case e laws r 3 24 tag _
          ◃ flag_case e laws r 7 56 tag _
          ◃ flag_case e laws r 11 88 tag _
          ◃ some_case r 12 98 tag _ (message-Ends e.wire laws.wire (FeatureSet.codec e laws) r _)
          ◃ some_case r 999 7994 tag _
              (message-Ends e.wire laws.wire (UninterpretedOption.RoundTrip.codec e laws) r _)
          ◃ no_case).ends

    pub decode-loop :
        (r : In e) (len : Option ℕ)
        → decode e r len ≡ decode_with e.wire (field e) create_base r len
    unfolding decode
    decode-loop r len = refl

    abbrev pub codec : Codec e.wire MessageOptions
    codec =
        codec_of e.wire laws.wire (encode e) (decode e) (field e) create_base bytes fill
          (Fits numbered) decode-loop runs IsTotal-field
