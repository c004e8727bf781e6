-- ===== src/Messages/RoundTrip.antt =====
-- The bytes of the messages of web/src/generated/auth.ts, greeter.ts and google/api/http.ts.
use sample_grpc_service.Prelude.{ℕ, ◌^◌, ◌<◌, ◌≡◌, Option, none, List, [], length}
use sample_grpc_service.Prelude.Outcome.{ok}
use sample_grpc_service.Wire.{Wire, WireLaws, Reader, new_reader, new_writer}
use sample_grpc_service.Wire.Carries.{at}
use sample_grpc_service.Wire.Loop.{Ends}
use sample_grpc_service.Wire.Codec.{decode_encoded}
use sample_grpc_service.Messages.{
  MessageType, Message, message_fns, google_login_request, user, session_response,
  update_profile_request, get_current_user_request, list_users_request, list_users_response,
  echo_request, echo_reply, custom_http_pattern, http,
}
use sample_grpc_service.Auth.GoogleLoginRequest.RoundTrip as GoogleLoginRequestRoundTrip
use sample_grpc_service.Auth.User.RoundTrip as UserRoundTrip
use sample_grpc_service.Auth.SessionResponse.RoundTrip as SessionResponseRoundTrip
use sample_grpc_service.Auth.UpdateProfileRequest.RoundTrip as UpdateProfileRequestRoundTrip
use sample_grpc_service.Auth.GetCurrentUserRequest.RoundTrip as GetCurrentUserRequestRoundTrip
use sample_grpc_service.Auth.ListUsersRequest.RoundTrip as ListUsersRequestRoundTrip
use sample_grpc_service.Auth.ListUsersResponse.RoundTrip as ListUsersResponseRoundTrip
use sample_grpc_service.Greeter.EchoRequest.RoundTrip as EchoRequestRoundTrip
use sample_grpc_service.Greeter.EchoReply.RoundTrip as EchoReplyRoundTrip
use sample_grpc_service.GoogleApi.CustomHttpPattern.RoundTrip as CustomHttpPatternRoundTrip
use sample_grpc_service.GoogleApi.Http.RoundTrip as HttpRoundTrip

module _ (w : Wire) where
  -- The wire format of a message.
  abbrev pub bytes : (t : MessageType) → Message t → List w.Byte
  bytes google_login_request = GoogleLoginRequestRoundTrip.bytes w
  bytes user = UserRoundTrip.bytes w
  bytes session_response = SessionResponseRoundTrip.bytes w
  bytes update_profile_request = UpdateProfileRequestRoundTrip.bytes w
  bytes get_current_user_request = GetCurrentUserRequestRoundTrip.bytes w
  bytes list_users_request = ListUsersRequestRoundTrip.bytes w
  bytes list_users_response = ListUsersResponseRoundTrip.bytes w
  bytes echo_request = EchoRequestRoundTrip.bytes w
  bytes echo_reply = EchoReplyRoundTrip.bytes w
  bytes custom_http_pattern = CustomHttpPatternRoundTrip.bytes w
  bytes http = HttpRoundTrip.bytes w

  module _ (laws : WireLaws w) where
    -- For each of the 11 message types of auth.ts, greeter.ts and http.ts besides HttpRule and
    -- each of its messages: decoding the whole of the bytes that `encode` writes on a new writer
    -- gives back the message and leaves the reader at the end, over any wire library with the
    -- documented laws, as long as the encoding is shorter than 2^32 bytes.
    pub message_decode-encode :
        (t : MessageType) (m : Message t)
        → length (bytes t m) < 2 ^ 32
        → (message_fns w t).decode
            (new_reader (w.finish ((message_fns w t).encode m new_writer)))
            none
          ≡ ok (m, at (length (bytes t m)) [])
    unfolding message_fns
    message_decode-encode google_login_request m h =
        decode_encoded w laws (GoogleLoginRequestRoundTrip.codec w laws) m tt h
    message_decode-encode user m h = decode_encoded w laws (UserRoundTrip.codec w laws) m tt h
    message_decode-encode session_response m h =
        decode_encoded w laws (SessionResponseRoundTrip.codec w laws) m tt h
    message_decode-encode update_profile_request m h =
        decode_encoded w laws (UpdateProfileRequestRoundTrip.codec w laws) m tt h
    message_decode-encode get_current_user_request m h =
        decode_encoded w laws (GetCurrentUserRequestRoundTrip.codec w laws) m tt h
    message_decode-encode list_users_request m h =
        decode_encoded w laws (ListUsersRequestRoundTrip.codec w laws) m tt h
    message_decode-encode list_users_response m h =
        decode_encoded w laws (ListUsersResponseRoundTrip.codec w laws) m tt h
    message_decode-encode echo_request m h =
        decode_encoded w laws (EchoRequestRoundTrip.codec w laws) m tt h
    message_decode-encode echo_reply m h =
        decode_encoded w laws (EchoReplyRoundTrip.codec w laws) m tt h
    message_decode-encode custom_http_pattern m h =
        decode_encoded w laws (CustomHttpPatternRoundTrip.codec w laws) m tt h
    message_decode-encode http m h = decode_encoded w laws (HttpRoundTrip.codec w laws) m tt h

    -- For each of those 11 types, `decode` ends on every input: over any wire library with the
    -- documented laws, for each reader and each length or none, it returns or throws, its loop
    -- never runs out of fuel, and the reader that it leaves has no more bytes than the one it got.
    pub message_decode-Ends :
        (t : MessageType) (r : Reader w.Byte) (len : Option ℕ)
        → Ends (length r.rest) ((message_fns w t).decode r len)
    unfolding message_fns
    message_decode-Ends google_login_request r len =
        (GoogleLoginRequestRoundTrip.codec w laws).decode_ends r len
    message_decode-Ends user r len = (UserRoundTrip.codec w laws).decode_ends r len
    message_decode-Ends session_response r len =
        (SessionResponseRoundTrip.codec w laws).decode_ends r len
    message_decode-Ends update_profile_request r len =
        (UpdateProfileRequestRoundTrip.codec w laws).decode_ends r len
    message_decode-Ends get_current_user_request r len =
        (GetCurrentUserRequestRoundTrip.codec w laws).decode_ends r len
    message_decode-Ends list_users_request r len =
        (ListUsersRequestRoundTrip.codec w laws).decode_ends r len
    message_decode-Ends list_users_response r len =
        (ListUsersResponseRoundTrip.codec w laws).decode_ends r len
    message_decode-Ends echo_request r len = (EchoRequestRoundTrip.codec w laws).decode_ends r len
    message_decode-Ends echo_reply r len = (EchoReplyRoundTrip.codec w laws).decode_ends r len
    message_decode-Ends custom_http_pattern r len =
        (CustomHttpPatternRoundTrip.codec w laws).decode_ends r len
    message_decode-Ends http r len = (HttpRoundTrip.codec w laws).decode_ends r len
