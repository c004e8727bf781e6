-- ===== src/Messages/Json.antt =====
-- The messages of web/src/generated/auth.ts, greeter.ts and google/api/http.ts in JSON and as
-- partials.
use sample_grpc_service.Prelude.{◌≡◌, refl, ap}
use sample_grpc_service.Prelude.Outcome.{ok}
use sample_grpc_service.Wire.{Wire}
use sample_grpc_service.Messages.{
  MessageType, Message, Partial, message_fns, google_login_request, user, session_response,
  update_profile_request, get_current_user_request, list_users_request, list_users_response,
  echo_request, echo_reply, custom_http_pattern, http,
}
use sample_grpc_service.Auth.GoogleLoginRequest.Json as GoogleLoginRequestJson
use sample_grpc_service.Auth.User.Json as UserJson
use sample_grpc_service.Auth.SessionResponse.Json as SessionResponseJson
use sample_grpc_service.Auth.UpdateProfileRequest.Json as UpdateProfileRequestJson
use sample_grpc_service.Auth.GetCurrentUserRequest.Json as GetCurrentUserRequestJson
use sample_grpc_service.Auth.ListUsersRequest.Json as ListUsersRequestJson
use sample_grpc_service.Auth.ListUsersResponse.Json as ListUsersResponseJson
use sample_grpc_service.Greeter.EchoRequest.Json as EchoRequestJson
use sample_grpc_service.Greeter.EchoReply.Json as EchoReplyJson
use sample_grpc_service.GoogleApi.CustomHttpPattern.Json as CustomHttpPatternJson
use sample_grpc_service.GoogleApi.Http.Json as HttpJson
use sample_grpc_service.Auth.GetCurrentUserRequest as GetCurrentUserRequest
use sample_grpc_service.Auth.ListUsersRequest as ListUsersRequest

-- For each of those 11 types, `fromJSON` of what `toJSON` gives for a message succeeds with that
-- message.
pub message_from_json-to_json :
    (w : Wire) (t : MessageType) (m : Message t)
    → (message_fns w t).from_json ((message_fns w t).to_json m) ≡ ok m
unfolding message_fns
message_from_json-to_json w google_login_request m =
    GoogleLoginRequestJson.google_login_request_from_json-to_json m
message_from_json-to_json w user m = UserJson.user_from_json-to_json m
message_from_json-to_json w session_response m =
    SessionResponseJson.session_response_from_json-to_json m
message_from_json-to_json w update_profile_request m =
    UpdateProfileRequestJson.update_profile_request_from_json-to_json m
message_from_json-to_json w get_current_user_request m =
    ap ok (GetCurrentUserRequestJson.get_current_user_request_from_json-to_json m)
message_from_json-to_json w list_users_request m =
    ap ok (ListUsersRequestJson.list_users_request_from_json-to_json m)
message_from_json-to_json w list_users_response m =
    ListUsersResponseJson.list_users_response_from_json-to_json m
message_from_json-to_json w echo_request m = EchoRequestJson.echo_request_from_json-to_json m
message_from_json-to_json w echo_reply m = EchoReplyJson.echo_reply_from_json-to_json m
message_from_json-to_json w custom_http_pattern m =
    CustomHttpPatternJson.custom_http_pattern_from_json-to_json m
message_from_json-to_json w http m = HttpJson.http_from_json-to_json m

-- All the properties of a message.
abbrev pub whole : (t : MessageType) → Message t → Partial t
whole google_login_request m = GoogleLoginRequestJson.whole m
whole user m = UserJson.whole m
whole session_response m = SessionResponseJson.whole m
whole update_profile_request m = UpdateProfileRequestJson.whole m
whole get_current_user_request m = tt
whole list_users_request m = tt
whole list_users_response m = ListUsersResponseJson.whole m
whole echo_request m = EchoRequestJson.whole m
whole echo_reply m = EchoReplyJson.whole m
whole custom_http_pattern m = CustomHttpPatternJson.whole m
whole http m = HttpJson.whole m

-- For each of those 11 types, `fromPartial` of all the properties of a message gives the message.
pub message_from_partial-whole :
    (w : Wire) (t : MessageType) (m : Message t) → (message_fns w t).from_partial (whole t m) ≡ m
unfolding message_fns GetCurrentUserRequest.from_partial GetCurrentUserRequest.create_base
    ListUsersRequest.from_partial ListUsersRequest.create_base
message_from_partial-whole w google_login_request m =
    GoogleLoginRequestJson.google_login_request_from_partial-whole m
message_from_partial-whole w user m = UserJson.user_from_partial-whole m
message_from_partial-whole w session_response m =
    SessionResponseJson.session_response_from_partial-whole m
message_from_partial-whole w update_profile_request m =
    UpdateProfileRequestJson.update_profile_request_from_partial-whole m
message_from_partial-whole w get_current_user_request GetCurrentUserRequest.empty = refl
message_from_partial-whole w list_users_request ListUsersRequest.empty = refl
message_from_partial-whole w list_users_response m =
    ListUsersResponseJson.list_users_response_from_partial-whole m
message_from_partial-whole w echo_request m = EchoRequestJson.echo_request_from_partial-whole m
message_from_partial-whole w echo_reply m = EchoReplyJson.echo_reply_from_partial-whole m
message_from_partial-whole w custom_http_pattern m =
    CustomHttpPatternJson.custom_http_pattern_from_partial-whole m
message_from_partial-whole w http m = HttpJson.http_from_partial-whole m
