-- ===== src/GoogleApi/Http/RoundTrip.antt =====
-- `encode` and `decode` of Http in web/src/generated/google/api/http.ts:
-- the bytes of a message, and the loop over them.
use sample_grpc_service.Prelude.{ℕ, ◌≡◌, refl, Option, List, ◌++◌}
use sample_grpc_service.Wire.{Wire, WireLaws, Reader, ◌◃◌, decode_with}
use sample_grpc_service.Wire.Loop.{IsTotal}
use sample_grpc_service.Wire.Writes.{field_bool, field_messages}
use sample_grpc_service.Wire.Cases.{no_case, some_case, bool_case}
use sample_grpc_service.Wire.Runs.{Any, Any-list, Runs, Runs-bool, ◌⨾◌}
use sample_grpc_service.Wire.Codec.{Codec, codec_of, Runs-same, message-Ends}
use sample_grpc_service.GoogleApi.Http.{Http, create_base, encode, field, decode}
use sample_grpc_service.GoogleApi.HttpRule.RoundTrip as HttpRuleRoundTrip

module _ (w : Wire) where
  -- The wire format: the fields in the order of their writes, defaults left out.
  unfoldable pub bytes : Http → List w.Byte
  bytes m =
      field_messages w (HttpRuleRoundTrip.bytes w) 10 m.rules
      ++ field_bool w 16 m.fully_decode_reserved_expansion

  module _ (laws : WireLaws w) where
    pub runs : (m : Http) → Any m → Runs w laws (field w) (encode w m) (bytes m) create_base m
    unfolding encode bytes field create_base
    runs m fits =
        Runs-same w laws (HttpRuleRoundTrip.codec w laws) (λ v. refl) 10 m.rules
          (λ v k. record k { rules = v }) refl (Any-list m.rules) (λ self before k r. refl) refl
        ⨾ Runs-bool w laws 16 m.fully_decode_reserved_expansion
            (λ v k. record k { fully_decode_reserved_expansion = v }) refl (λ self k r. refl) refl

    pub IsTotal-field : IsTotal w laws (field w)
    unfolding field
    IsTotal-field self tag m r h =
        (some_case r 1 10 tag _ (message-Ends w laws (HttpRuleRoundTrip.codec w laws) r _)
          ◃ bool_case w laws r 2 16 tag _
          ◃ no_case).ends

    pub decode-loop :
        (r : Reader w.Byte) (len : Option ℕ)
        → decode w r len ≡ decode_with w (field w) create_base r len
    unfolding decode
    decode-loop r len = refl

    abbrev pub codec : Codec w Http
    codec =
        codec_of w laws (encode w) (decode w) (field w) create_base bytes (λ m. m) Any decode-loop
          runs IsTotal-field
