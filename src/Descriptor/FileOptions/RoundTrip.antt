-- ===== src/Descriptor/FileOptions/RoundTrip.antt =====
-- `encode` and `decode` of FileOptions in
-- web/src/generated/google/protobuf/descriptor.ts: the bytes of a message, and the loop over them.
use sample_grpc_service.Prelude.{ℕ, ◌≡◌, refl, true, false, Option, ◌++◌}
use sample_grpc_service.Wire.{◌◃◌, decode_with}
use sample_grpc_service.Wire.Loop.{IsTotal}
use sample_grpc_service.Wire.Cases.{no_case, some_case}
use sample_grpc_service.Wire.Writes.{field_message?, field_messages}
use sample_grpc_service.Wire.Runs.{Runs, ◌⨾◌, OnOption, OnList}
use sample_grpc_service.Wire.Codec.{Codec, codec_of, Runs-message?, Runs-list, message-Ends}
use sample_grpc_service.Proto.{Runtime, Bytes, In, text, flag, int32}
use sample_grpc_service.Proto.Laws.{RuntimeLaws}
use sample_grpc_service.Proto.Runs.{bytes_or}
use sample_grpc_service.Proto.Totals.{text_case, flag_case, int32_case}
use sample_grpc_service.Proto.Kept.{Enums, numbered, Runs-text, Runs-flag, Runs-int32}
use sample_grpc_service.Descriptor.FileOptionsOptimizeMode
use sample_grpc_service.Descriptor.FeatureSet
use sample_grpc_service.Descriptor.UninterpretedOption
use sample_grpc_service.Descriptor.FileOptions.{
  FileOptions, create_base, encode, field, decode, fill,
}

module _ (e : Runtime) where
  -- The wire format: the fields in the order of their writes, defaults left out.
  unfoldable pub bytes : FileOptions → Bytes e
  bytes m =
      bytes_or e (text e) 10 "" m.java_package
      ++ bytes_or e (text e) 66 "" m.java_outer_classname
      ++ bytes_or e (flag e) 80 false m.java_multiple_files
      ++ bytes_or e (flag e) 160 false m.java_generate_equals_and_hash
      ++ bytes_or e (flag e) 216 false m.java_string_check_utf8
      ++ bytes_or e (int32 e) 72 "1" m.optimize_for
      ++ bytes_or e (text e) 90 "" m.go_package
      ++ bytes_or e (flag e) 128 false m.cc_generic_services
      ++ bytes_or e (flag e) 136 false m.java_generic_services
      ++ bytes_or e (flag e) 144 false m.py_generic_services
      ++ bytes_or e (flag e) 184 false m.deprecated
      ++ bytes_or e (flag e) 248 true m.cc_enable_arenas
      ++ bytes_or e (text e) 290 "" m.objc_class_prefix
      ++ bytes_or e (text e) 298 "" m.csharp_namespace
      ++ bytes_or e (text e) 314 "" m.swift_prefix
      ++ bytes_or e (text e) 322 "" m.php_class_prefix
      ++ bytes_or e (text e) 330 "" m.php_namespace
      ++ bytes_or e (text e) 354 "" m.php_metadata_namespace
      ++ bytes_or e (text e) 362 "" m.ruby_package
      ++ field_message? e.wire (FeatureSet.bytes e) 402 m.features
      ++ field_messages e.wire (UninterpretedOption.RoundTrip.bytes e) 7994 m.uninterpreted_option

  -- The numbers of the message fit their fields.
  abbrev pub Fits : Enums → FileOptions → Type 0
  Fits enums m =
      OnOption (FileOptionsOptimizeMode.Json.Fits e enums) m.optimize_for
      × OnOption (FeatureSet.Fits e enums) m.features
      × OnList (UninterpretedOption.RoundTrip.Fits e enums) m.uninterpreted_option

  module _ (laws : RuntimeLaws e) where
    pub runs :
        (m : FileOptions)
        → Fits numbered m
        → Runs e.wire laws.wire (field e) (encode e m) (bytes m) create_base (fill m)
    unfolding encode bytes field create_base fill
    runs m fits =
        Runs-text e laws "" 10 m.java_package (λ v k. record k { java_package = v }) refl
          (λ self k r. refl) refl
        ⨾ Runs-text e laws "" 66 m.java_outer_classname
            (λ v k. record k { java_outer_classname = v }) refl (λ self k r. refl) refl
        ⨾ Runs-flag e laws false 80 m.java_multiple_files
            (λ v k. record k { java_multiple_files = v }) refl (λ self k r. refl) refl
        ⨾ Runs-flag e laws false 160 m.java_generate_equals_and_hash
            (λ v k. record k { java_generate_equals_and_hash = v }) refl (λ self k r. refl) refl
        ⨾ Runs-flag e laws false 216 m.java_string_check_utf8
            (λ v k. record k { java_string_check_utf8 = v }) refl (λ self k r. refl) refl
        ⨾ Runs-int32 e laws "1" 72 m.optimize_for (λ v k. record k { optimize_for = v }) refl fits.0
            (λ self k r. refl) refl
        ⨾ Runs-text e laws "" 90 m.go_package (λ v k. record k { go_package = v }) refl
            (λ self k r. refl) refl
        ⨾ Runs-flag e laws false 128 m.cc_generic_services
            (λ v k. record k { cc_generic_services = v }) refl (λ self k r. refl) refl
        ⨾ Runs-flag e laws false 136 m.java_generic_services
            (λ v k. record k { java_generic_services = v }) refl (λ self k r. refl) refl
        ⨾ Runs-flag e laws false 144 m.py_generic_services
            (λ v k. record k { py_generic_services = v }) refl (λ self k r. refl) refl
        ⨾ Runs-flag e laws false 184 m.deprecated (λ v k. record k { deprecated = v }) refl
            (λ self k r. refl) refl
        ⨾ Runs-flag e laws true 248 m.cc_enable_arenas (λ v k. record k { cc_enable_arenas = v })
            refl (λ self k r. refl) refl
        ⨾ Runs-text e laws "" 290 m.objc_class_prefix (λ v k. record k { objc_class_prefix = v })
            refl (λ self k r. refl) refl
        ⨾ Runs-text e laws "" 298 m.csharp_namespace (λ v k. record k { csharp_namespace = v }) refl
            (λ self k r. refl) refl
        ⨾ Runs-text e laws "" 314 m.swift_prefix (λ v k. record k { swift_prefix = v }) refl
            (λ self k r. refl) refl
        ⨾ Runs-text e laws "" 322 m.php_class_prefix (λ v k. record k { php_class_prefix = v }) refl
            (λ self k r. refl) refl
        ⨾ Runs-text e laws "" 330 m.php_namespace (λ v k. record k { php_namespace = v }) refl
            (λ self k r. refl) refl
        ⨾ Runs-text e laws "" 354 m.php_metadata_namespace
            (λ v k. record k { php_metadata_namespace = v }) refl (λ self k r. refl) refl
        ⨾ Runs-text e laws "" 362 m.ruby_package (λ v k. record k { ruby_package = v }) refl
            (λ self k r. refl) refl
        ⨾ Runs-message? e.wire laws.wire (FeatureSet.codec e laws) 402 m.features
            (λ v k. record k { features = v }) refl fits.1 (λ self k r. refl) refl
        ⨾ Runs-list e.wire laws.wire (UninterpretedOption.RoundTrip.codec e laws) 7994
            m.uninterpreted_option (λ v k. record k { uninterpreted_option = v }) refl fits.2
            (λ self before k r. refl) refl

    pub IsTotal-field : IsTotal e.wire laws.wire (field e)
    unfolding field
    IsTotal-field self tag m r h =
        (text_case e laws r 1 10 tag _
          ◃ text_case e laws r 8 66 tag _
          ◃ flag_case e laws r 10 80 tag _
          ◃ flag_case e laws r 20 160 tag _
          ◃ flag_case e laws r 27 216 tag _
          ◃ int32_case e laws r 9 72 tag _
          ◃ text_case e laws r 11 90 tag _
          ◃ flag_case e laws r 16 128 tag _
          ◃ flag_case e laws r 17 136 tag _
          ◃ flag_case e laws r 18 144 tag _
          ◃ flag_case e laws r 23 184 tag _
          ◃ flag_case e laws r 31 248 tag _
          ◃ text_case e laws r 36 290 tag _
          ◃ text_case e laws r 37 298 tag _
          ◃ text_case e laws r 39 314 tag _
          ◃ text_case e laws r 40 322 tag _
          ◃ text_case e laws r 41 330 tag _
          ◃ text_case e laws r 44 354 tag _
          ◃ text_case e laws r 45 362 tag _
          ◃ some_case r 50 402 tag _ (message-Ends e.wire laws.wire (FeatureSet.codec e laws) r _)
          ◃ some_case r 999 7994 tag _
              (message-Ends e.wire laws.wire (UninterpretedOption.RoundTrip.codec e laws) r _)
          ◃ no_case).ends

    pub decode-loop :
        (r : In e) (len : Option ℕ)
        → decode e r len ≡ decode_with e.wire (field e) create_base r len
    unfolding decode
    decode-loop r len = refl

    abbrev pub codec : Codec e.wire FileOptions
    codec =
        codec_of e.wire laws.wire (encode e) (decode e) (field e) create_base bytes fill
          (Fits numbered) decode-loop runs IsTotal-field
