-- ===== src/Auth/SessionResponse/RoundTrip.antt =====
-- `encode` and `decode` of SessionResponse in web/src/generated/auth.ts:
-- the bytes of a message, and the loop over them.
use sample_grpc_service.Prelude.{ℕ, ◌≡◌, refl, Option, List, ◌++◌}
use sample_grpc_service.Wire.{Wire, WireLaws, Reader, ◌◃◌, decode_with}
use sample_grpc_service.Wire.Loop.{IsTotal}
use sample_grpc_service.Wire.Writes.{field_string, field_message?}
use sample_grpc_service.Wire.Cases.{no_case, some_case, string_case}
use sample_grpc_service.Wire.Runs.{Any, Any-option, Runs, Runs-string, ◌⨾◌}
use sample_grpc_service.Wire.Codec.{Codec, codec_of, Runs-same?, message-Ends}
use sample_grpc_service.Auth.SessionResponse.{SessionResponse, create_base, encode, field, decode}
use sample_grpc_service.Auth.User.RoundTrip as UserRoundTrip

module _ (w : Wire) where
  -- The wire format: the fields in the order of their writes, defaults left out.
  unfoldable pub bytes : SessionResponse → List w.Byte
  bytes m = field_string w 10 m.jwt ++ field_message? w (UserRoundTrip.bytes w) 18 m.user

  module _ (laws : WireLaws w) where
    pub runs :
        (m : SessionResponse) → Any m → Runs w laws (field w) (encode w m) (bytes m) create_base m
    unfolding encode bytes field create_base
    runs m fits =
        Runs-string w laws 10 m.jwt (λ v k. record k { jwt = v }) refl (λ self k r. refl) refl
        ⨾ Runs-same? w laws (UserRoundTrip.codec w laws) (λ v. refl) 18 m.user
            (λ v k. record k { user = v }) refl (Any-option m.user) (λ self k r. refl) refl

    pub IsTotal-field : IsTotal w laws (field w)
    unfolding field
    IsTotal-field self tag m r h =
        (string_case w laws r 1 10 tag _
          ◃ some_case r 2 18 tag _ (message-Ends w laws (UserRoundTrip.codec w laws) r _)
          ◃ no_case).ends

    pub decode-loop :
        (r : Reader w.Byte) (len : Option ℕ)
        → decode w r len ≡ decode_with w (field w) create_base r len
    unfolding decode
    decode-loop r len = refl

    abbrev pub codec : Codec w SessionResponse
    codec =
        codec_of w laws (encode w) (decode w) (field w) create_base bytes (λ m. m) Any decode-loop
          runs IsTotal-field
