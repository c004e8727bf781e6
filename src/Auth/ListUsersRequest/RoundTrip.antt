-- ===== src/Auth/ListUsersRequest/RoundTrip.antt =====
-- `encode` and `decode` of ListUsersRequest in web/src/generated/auth.ts:
-- the bytes of a message, and the loop over them.
use sample_grpc_service.Prelude.{ℕ, ◌≡◌, refl, Option, List, []}
use sample_grpc_service.Wire.{Wire, WireLaws, Reader, decode_with}
use sample_grpc_service.Wire.Loop.{IsTotal}
use sample_grpc_service.Wire.Runs.{Any, Runs, Runs-nil}
use sample_grpc_service.Wire.Codec.{Codec, codec_of}
use sample_grpc_service.Auth.ListUsersRequest.{
  ListUsersRequest, create_base, encode, field, decode, empty,
}

module _ (w : Wire) where
  -- The wire format: the fields in the order of their writes, defaults left out.
  unfoldable pub bytes : ListUsersRequest → List w.Byte
  bytes m = []

  module _ (laws : WireLaws w) where
    pub runs :
        (m : ListUsersRequest) → Any m → Runs w laws (field w) (encode w m) (bytes m) create_base m
    unfolding encode bytes field create_base
    runs empty fits = Runs-nil w laws empty

    pub IsTotal-field : IsTotal w laws (field w)
    unfolding field
    IsTotal-field self tag m r h = tt

    pub decode-loop :
        (r : Reader w.Byte) (len : Option ℕ)
        → decode w r len ≡ decode_with w (field w) create_base r len
    unfolding decode
    decode-loop r len = refl

    abbrev pub codec : Codec w ListUsersRequest
    codec =
        codec_of w laws (encode w) (decode w) (field w) create_base bytes (λ m. m) Any decode-loop
          runs IsTotal-field
