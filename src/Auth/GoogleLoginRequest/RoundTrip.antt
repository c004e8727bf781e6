-- ===== src/Auth/GoogleLoginRequest/RoundTrip.antt =====
-- `encode` and `decode` of GoogleLoginRequest in web/src/generated/auth.ts:
-- the bytes of a message, and the loop over them.
use sample_grpc_service.Prelude.{ℕ, ◌≡◌, refl, Option, List}
use sample_grpc_service.Wire.{Wire, WireLaws, Reader, ◌◃◌, decode_with}
use sample_grpc_service.Wire.Loop.{IsTotal}
use sample_grpc_service.Wire.Writes.{field_string}
use sample_grpc_service.Wire.Cases.{no_case, string_case}
use sample_grpc_service.Wire.Runs.{Any, Runs, Runs-string}
use sample_grpc_service.Wire.Codec.{Codec, codec_of}
use sample_grpc_service.Auth.GoogleLoginRequest.{
  GoogleLoginRequest, create_base, encode, field, decode,
}

module _ (w : Wire) where
  -- The wire format: the fields in the order of their writes, defaults left out.
  unfoldable pub bytes : GoogleLoginRequest → List w.Byte
  bytes m = field_string w 10 m.id_token

  module _ (laws : WireLaws w) where
    pub runs :
        (m : GoogleLoginRequest)
        → Any m
        → Runs w laws (field w) (encode w m) (bytes m) create_base m
    unfolding encode bytes field create_base
    runs m fits =
        Runs-string w laws 10 m.id_token (λ v k. record k { id_token = v }) refl (λ self k r. refl)
          refl

    pub IsTotal-field : IsTotal w laws (field w)
    unfolding field
    IsTotal-field self tag m r h = (string_case w laws r 1 10 tag _ ◃ no_case).ends

    pub decode-loop :
        (r : Reader w.Byte) (len : Option ℕ)
        → decode w r len ≡ decode_with w (field w) create_base r len
    unfolding decode
    decode-loop r len = refl

    abbrev pub codec : Codec w GoogleLoginRequest
    codec =
        codec_of w laws (encode w) (decode w) (field w) create_base bytes (λ m. m) Any decode-loop
          runs IsTotal-field
