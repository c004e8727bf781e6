-- ===== src/Descriptor/FieldOptions/RoundTrip.antt =====
-- `encode` and `decode` of FieldOptions in
-- web/src/generated/google/protobuf/descriptor.ts: the bytes of a message, and the loop over them.
use sample_grpc_service.Prelude.{ℕ, ◌≡◌, refl, false, Option, ◌++◌}
use sample_grpc_service.Wire.{◌◃◌, decode_with}
use sample_grpc_service.Wire.Loop.{IsTotal}
use sample_grpc_service.Wire.Cases.{no_case, some_case}
use sample_grpc_service.Wire.Writes.{field_message?, field_messages}
use sample_grpc_service.Wire.Runs.{Runs, ◌⨾◌, OnOption, OnList}
use sample_grpc_service.Wire.Codec.{Codec, codec_of, Runs-message?, Runs-list, message-Ends}
use sample_grpc_service.Proto.{Runtime, Bytes, In, flag, int32}
use sample_grpc_service.Proto.Laws.{RuntimeLaws}
use sample_grpc_service.Proto.Runs.{Runs-each, bytes_or, bytes_each}
use sample_grpc_service.Proto.Totals.{flag_case, int32_case, ints_case}
use sample_grpc_service.Proto.Kept.{Enums, numbered, Runs-flag, Runs-int32}
use sample_grpc_service.Descriptor.FieldOptionsCType
use sample_grpc_service.Descriptor.FieldOptionsJsType
use sample_grpc_service.Descriptor.FieldOptionsOptionRetention
use sample_grpc_service.Descriptor.FieldOptionsOptionTargetType
use sample_grpc_service.Descriptor.FieldOptionsEditionDefault
use sample_grpc_service.Descriptor.FeatureSet
use sample_grpc_service.Descriptor.FieldOptionsFeatureSupport
use sample_grpc_service.Descriptor.UninterpretedOption
use sample_grpc_service.Descriptor.FieldOptions.{
  FieldOptions, create_base, encode, field, decode, fill,
}

module _ (e : Runtime) where
  -- The wire format: the fields in the order of their writes, defaults left out.
  unfoldable pub bytes : FieldOptions → Bytes e
  bytes m =
      bytes_or e (int32 e) 8 "0" m.ctype
      ++ bytes_or e (flag e) 16 false m.packed
      ++ bytes_or e (int32 e) 48 "0" m.jstype
      ++ bytes_or e (flag e) 40 false m.lazy
      ++ bytes_or e (flag e) 120 false m.unverified_lazy
      ++ bytes_or e (flag e) 24 false m.deprecated
      ++ bytes_or e (flag e) 80 false m.weak
      ++ bytes_or e (flag e) 128 false m.debug_redact
      ++ bytes_or e (int32 e) 136 "0" m.retention
      ++ bytes_each e (int32 e) 152 m.targets
      ++ field_messages e.wire (FieldOptionsEditionDefault.bytes e) 162 m.edition_defaults
      ++ field_message? e.wire (FeatureSet.bytes e) 170 m.features
      ++ field_message? e.wire (FieldOptionsFeatureSupport.bytes e) 178 m.feature_support
      ++ field_messages e.wire (UninterpretedOption.RoundTrip.bytes e) 7994 m.uninterpreted_option

  -- The numbers of the message fit their fields.
  abbrev pub Fits : Enums → FieldOptions → Type 0
  Fits enums m =
      OnOption (FieldOptionsCType.Json.Fits e enums) m.ctype
      × OnOption (FieldOptionsJsType.Json.Fits e enums) m.jstype
      × OnOption (FieldOptionsOptionRetention.Json.Fits e enums) m.retention
      × OnList (FieldOptionsOptionTargetType.Json.Fits e enums) m.targets
      × OnList (FieldOptionsEditionDefault.Fits e enums) m.edition_defaults
      × OnOption (FeatureSet.Fits e enums) m.features
      × OnOption (FieldOptionsFeatureSupport.Fits e enums) m.feature_support
      × OnList (UninterpretedOption.RoundTrip.Fits e enums) m.uninterpreted_option

  module _ (laws : RuntimeLaws e) where
    pub runs :
        (m : FieldOptions)
        → Fits numbered m
        → Runs e.wire laws.wire (field e) (encode e m) (bytes m) create_base (fill m)
    unfolding encode bytes field create_base fill
    runs m fits =
        Runs-int32 e laws "0" 8 m.ctype (λ v k. record k { ctype = v }) refl fits.0
          (λ self k r. refl) refl
        ⨾ Runs-flag e laws false 16 m.packed (λ v k. record k { packed = v }) refl
            (λ self k r. refl) refl
        ⨾ Runs-int32 e laws "0" 48 m.jstype (λ v k. record k { jstype = v }) refl fits.1
            (λ self k r. refl) refl
        ⨾ Runs-flag e laws false 40 m.lazy (λ v k. record k { lazy = v }) refl (λ self k r. refl)
            refl
        ⨾ Runs-flag e laws false 120 m.unverified_lazy (λ v k. record k { unverified_lazy = v })
            refl (λ self k r. refl) refl
        ⨾ Runs-flag e laws false 24 m.deprecated (λ v k. record k { deprecated = v }) refl
            (λ self k r. refl) refl
        ⨾ Runs-flag e laws false 80 m.weak (λ v k. record k { weak = v }) refl (λ self k r. refl)
            refl
        ⨾ Runs-flag e laws false 128 m.debug_redact (λ v k. record k { debug_redact = v }) refl
            (λ self k r. refl) refl
        ⨾ Runs-int32 e laws "0" 136 m.retention (λ v k. record k { retention = v }) refl fits.2
            (λ self k r. refl) refl
        ⨾ Runs-each e laws laws.int32_lem 152 m.targets (λ v k. record k { targets = v }) refl
            fits.3 (λ self before k r. refl) refl
        ⨾ Runs-list e.wire laws.wire (FieldOptionsEditionDefault.codec e laws) 162
            m.edition_defaults (λ v k. record k { edition_defaults = v }) refl fits.4
            (λ self before k r. refl) refl
        ⨾ Runs-message? e.wire laws.wire (FeatureSet.codec e laws) 170 m.features
            (λ v k. record k { features = v }) refl fits.5 (λ self k r. refl) refl
        ⨾ Runs-message? e.wire laws.wire (FieldOptionsFeatureSupport.codec e laws) 178
            m.feature_support (λ v k. record k { feature_support = v }) refl fits.6
            (λ self k r. refl) refl
        ⨾ Runs-list e.wire laws.wire (UninterpretedOption.RoundTrip.codec e laws) 7994
            m.uninterpreted_option (λ v k. record k { uninterpreted_option = v }) refl fits.7
            (λ self before k r. refl) refl

    pub IsTotal-field : IsTotal e.wire laws.wire (field e)
    unfolding field
    IsTotal-field self tag m r h =
        (int32_case e laws r 1 8 tag _
          ◃ flag_case e laws r 2 16 tag _
          ◃ int32_case e laws r 6 48 tag _
          ◃ flag_case e laws r 5 40 tag _
          ◃ flag_case e laws r 15 120 tag _
          ◃ flag_case e laws r 3 24 tag _
          ◃ flag_case e laws r 10 80 tag _
          ◃ flag_case e laws r 16 128 tag _
          ◃ int32_case e laws r 17 136 tag _
          ◃ ints_case e laws r 19 152 tag 154 m _ _
          ◃ some_case r 20 162 tag _
              (message-Ends e.wire laws.wire (FieldOptionsEditionDefault.codec e laws) r _)
          ◃ some_case r 21 170 tag _ (message-Ends e.wire laws.wire (FeatureSet.codec e laws) r _)
          ◃ some_case r 22 178 tag _
              (message-Ends e.wire laws.wire (FieldOptionsFeatureSupport.codec e laws) r _)
          ◃ some_case r 999 7994 tag _
              (message-Ends e.wire laws.wire (UninterpretedOption.RoundTrip.codec e laws) r _)
          ◃ no_case).ends

    pub decode-loop :
        (r : In e) (len : Option ℕ)
        → decode e r len ≡ decode_with e.wire (field e) create_base r len
    unfolding decode
    decode-loop r len = refl

    abbrev pub codec : Codec e.wire FieldOptions
    codec =
        codec_of e.wire laws.wire (encode e) (decode e) (field e) create_base bytes fill
          (Fits numbered) decode-loop runs IsTotal-field
