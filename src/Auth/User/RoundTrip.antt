-- ===== src/Auth/User/RoundTrip.antt =====
-- `encode` and `decode` of User in web/src/generated/auth.ts:
-- the bytes of a message, and the loop over them.
use sample_grpc_service.Prelude.{ℕ, ◌≡◌, refl, Option, List, ◌++◌}
use sample_grpc_service.Wire.{Wire, WireLaws, Reader, ◌◃◌, decode_with}
use sample_grpc_service.Wire.Loop.{IsTotal}
use sample_grpc_service.Wire.Writes.{field_string, field_bool}
use sample_grpc_service.Wire.Cases.{no_case, string_case, bool_case}
use sample_grpc_service.Wire.Runs.{Any, Runs, Runs-string, Runs-bool, ◌⨾◌}
use sample_grpc_service.Wire.Codec.{Codec, codec_of}
use sample_grpc_service.Auth.User.{User, create_base, encode, field, decode}

module _ (w : Wire) where
  -- The wire format: the fields in the order of their writes, defaults left out.
  unfoldable pub bytes : User → List w.Byte
  bytes m =
      field_string w 10 m.id
      ++ field_string w 18 m.email
      ++ field_string w 26 m.display_name
      ++ field_string w 34 m.username
      ++ field_string w 42 m.picture_url
      ++ field_bool w 48 m.is_admin

  module _ (laws : WireLaws w) where
    pub runs : (m : User) → Any m → Runs w laws (field w) (encode w m) (bytes m) create_base m
    unfolding encode bytes field create_base
    runs m fits =
        Runs-string w laws 10 m.id (λ v k. record k { id = v }) refl (λ self k r. refl) refl
        ⨾ Runs-string w laws 18 m.email (λ v k. record k { email = v }) refl (λ self k r. refl) refl
        ⨾ Runs-string w laws 26 m.display_name (λ v k. record k { display_name = v }) refl
            (λ self k r. refl) refl
        ⨾ Runs-string w laws 34 m.username (λ v k. record k { username = v }) refl
            (λ self k r. refl) refl
        ⨾ Runs-string w laws 42 m.picture_url (λ v k. record k { picture_url = v }) refl
            (λ self k r. refl) refl
        ⨾ Runs-bool w laws 48 m.is_admin (λ v k. record k { is_admin = v }) refl (λ self k r. refl)
            refl

    pub IsTotal-field : IsTotal w laws (field w)
    unfolding field
    IsTotal-field self tag m r h =
        (string_case w laws r 1 10 tag _
          ◃ string_case w laws r 2 18 tag _
          ◃ string_case w laws r 3 26 tag _
          ◃ string_case w laws r 4 34 tag _
          ◃ string_case w laws r 5 42 tag _
          ◃ bool_case w laws r 6 48 tag _
          ◃ no_case).ends

    pub decode-loop :
        (r : Reader w.Byte) (len : Option ℕ)
        → decode w r len ≡ decode_with w (field w) create_base r len
    unfolding decode
    decode-loop r len = refl

    abbrev pub codec : Codec w User
    codec =
        codec_of w laws (encode w) (decode w) (field w) create_base bytes (λ m. m) Any decode-loop
          runs IsTotal-field
