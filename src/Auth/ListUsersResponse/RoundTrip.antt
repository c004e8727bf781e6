-- ===== src/Auth/ListUsersResponse/RoundTrip.antt =====
-- `encode` and `decode` of ListUsersResponse in web/src/generated/auth.ts:
-- the bytes of a message, and the loop over them.
use sample_grpc_service.Prelude.{ℕ, ◌≡◌, refl, Option, List}
use sample_grpc_service.Wire.{Wire, WireLaws, Reader, ◌◃◌, decode_with}
use sample_grpc_service.Wire.Loop.{IsTotal}
use sample_grpc_service.Wire.Writes.{field_messages}
use sample_grpc_service.Wire.Cases.{no_case, some_case}
use sample_grpc_service.Wire.Runs.{Any, Any-list, Runs}
use sample_grpc_service.Wire.Codec.{Codec, codec_of, Runs-same, message-Ends}
use sample_grpc_service.Auth.ListUsersResponse.{
  ListUsersResponse, create_base, encode, field, decode,
}
use sample_grpc_service.Auth.User.RoundTrip as UserRoundTrip

module _ (w : Wire) where
  -- The wire format: the fields in the order of their writes, defaults left out.
  unfoldable pub bytes : ListUsersResponse → List w.Byte
  bytes m = field_messages w (UserRoundTrip.bytes w) 10 m.users

  module _ (laws : WireLaws w) where
    pub runs :
        (m : ListUsersResponse) → Any m → Runs w laws (field w) (encode w m) (bytes m) create_base m
    unfolding encode bytes field create_base
    runs m fits =
        Runs-same w laws (UserRoundTrip.codec w laws) (λ v. refl) 10 m.users
          (λ v k. record k { users = v }) refl (Any-list m.users) (λ self before k r. refl) refl

    pub IsTotal-field : IsTotal w laws (field w)
    unfolding field
    IsTotal-field self tag m r h =
        (some_case r 1 10 tag _ (message-Ends w laws (UserRoundTrip.codec w laws) r _)
          ◃ no_case).ends

    pub decode-loop :
        (r : Reader w.Byte) (len : Option ℕ)
        → decode w r len ≡ decode_with w (field w) create_base r len
    unfolding decode
    decode-loop r len = refl

    abbrev pub codec : Codec w ListUsersResponse
    codec =
        codec_of w laws (encode w) (decode w) (field w) create_base bytes (λ m. m) Any decode-loop
          runs IsTotal-field
