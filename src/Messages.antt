-- ===== src/Messages.antt =====
-- The messages of web/src/generated/auth.ts, greeter.ts and google/api/http.ts that do not hold
-- themselves as one family: the constants that implement the interface `MessageFns`, by the type of
-- their messages.
pub mod RoundTrip
pub mod Json
use sample_grpc_service.Prelude.{ℕ, Option, List}
use sample_grpc_service.Prelude.Outcome.{Outcome, ok}
use sample_grpc_service.Wire.{Wire, Writer, Reader}
use sample_grpc_service.Js.{Js}
use sample_grpc_service.Auth.GoogleLoginRequest
use sample_grpc_service.Auth.User
use sample_grpc_service.Auth.SessionResponse
use sample_grpc_service.Auth.UpdateProfileRequest
use sample_grpc_service.Auth.GetCurrentUserRequest
use sample_grpc_service.Auth.ListUsersRequest
use sample_grpc_service.Auth.ListUsersResponse
use sample_grpc_service.Greeter.EchoRequest
use sample_grpc_service.Greeter.EchoReply
use sample_grpc_service.GoogleApi.CustomHttpPattern
use sample_grpc_service.GoogleApi.Http

-- `MessageFns<T>` over the bytes `B`; `P` is what `DeepPartial<T>` allows.
pub record MessageFns (B T P : Type 0) : Type 0 where
  pub encode : T → Writer B → Writer B
  pub decode : Reader B → Option ℕ → Outcome (T × Reader B)
  pub from_json : Js → Outcome T
  pub to_json : T → Js
  pub create : Option P → T
  pub from_partial : P → T

abbrev pub fns_of :
    {B T P : Type 0}
    → (T → Writer B → Writer B)
    → (Reader B → Option ℕ → Outcome (T × Reader B))
    → (Js → Outcome T)
    → (T → Js)
    → (Option P → T)
    → (P → T)
    → MessageFns B T P
fns_of f g h i j k = record {
  encode = f;
  decode = g;
  from_json = h;
  to_json = i;
  create = j;
  from_partial = k;
}

pub data MessageType : Type 0 where
  google_login_request user session_response update_profile_request get_current_user_request
        list_users_request list_users_response echo_request echo_reply custom_http_pattern http :
      MessageType

abbrev pub Message : MessageType → Type 0
Message google_login_request = GoogleLoginRequest.GoogleLoginRequest
Message user = User.User
Message session_response = SessionResponse.SessionResponse
Message update_profile_request = UpdateProfileRequest.UpdateProfileRequest
Message get_current_user_request = GetCurrentUserRequest.GetCurrentUserRequest
Message list_users_request = ListUsersRequest.ListUsersRequest
Message list_users_response = ListUsersResponse.ListUsersResponse
Message echo_request = EchoRequest.EchoRequest
Message echo_reply = EchoReply.EchoReply
Message custom_http_pattern = CustomHttpPattern.CustomHttpPattern
Message http = Http.Http

abbrev pub Partial : MessageType → Type 0
Partial google_login_request = GoogleLoginRequest.GoogleLoginRequestPartial
Partial user = User.UserPartial
Partial session_response = SessionResponse.SessionResponsePartial
Partial update_profile_request = UpdateProfileRequest.UpdateProfileRequestPartial
Partial get_current_user_request = Unit
Partial list_users_request = Unit
Partial list_users_response = ListUsersResponse.ListUsersResponsePartial
Partial echo_request = EchoRequest.EchoRequestPartial
Partial echo_reply = EchoReply.EchoReplyPartial
Partial custom_http_pattern = CustomHttpPattern.CustomHttpPatternPartial
Partial http = Http.HttpPartial

-- A request without fields is read from any JSON value and made from any partial.
unfoldable pub message_fns :
    (w : Wire) (t : MessageType) → MessageFns w.Byte (Message t) (Partial t)
message_fns w google_login_request =
    fns_of (GoogleLoginRequest.encode w) (GoogleLoginRequest.decode w) GoogleLoginRequest.from_json
      GoogleLoginRequest.to_json GoogleLoginRequest.create GoogleLoginRequest.from_partial
message_fns w user =
    fns_of (User.encode w) (User.decode w) User.from_json User.to_json User.create User.from_partial
message_fns w session_response =
    fns_of (SessionResponse.encode w) (SessionResponse.decode w) SessionResponse.from_json
      SessionResponse.to_json SessionResponse.create SessionResponse.from_partial
message_fns w update_profile_request =
    fns_of (UpdateProfileRequest.encode w) (UpdateProfileRequest.decode w)
      UpdateProfileRequest.from_json UpdateProfileRequest.to_json UpdateProfileRequest.create
      UpdateProfileRequest.from_partial
message_fns w get_current_user_request =
    fns_of (GetCurrentUserRequest.encode w) (GetCurrentUserRequest.decode w)
      (λ o. ok (GetCurrentUserRequest.from_json o)) GetCurrentUserRequest.to_json
      (λ o. GetCurrentUserRequest.from_partial) (λ o. GetCurrentUserRequest.from_partial)
message_fns w list_users_request =
    fns_of (ListUsersRequest.encode w) (ListUsersRequest.decode w)
      (λ o. ok (ListUsersRequest.from_json o)) ListUsersRequest.to_json
      (λ o. ListUsersRequest.from_partial) (λ o. ListUsersRequest.from_partial)
message_fns w list_users_response =
    fns_of (ListUsersResponse.encode w) (ListUsersResponse.decode w) ListUsersResponse.from_json
      ListUsersResponse.to_json ListUsersResponse.create ListUsersResponse.from_partial
message_fns w echo_request =
    fns_of (EchoRequest.encode w) (EchoRequest.decode w) EchoRequest.from_json EchoRequest.to_json
      EchoRequest.create EchoRequest.from_partial
message_fns w echo_reply =
    fns_of (EchoReply.encode w) (EchoReply.decode w) EchoReply.from_json EchoReply.to_json
      EchoReply.create EchoReply.from_partial
message_fns w custom_http_pattern =
    fns_of (CustomHttpPattern.encode w) (CustomHttpPattern.decode w) CustomHttpPattern.from_json
      CustomHttpPattern.to_json CustomHttpPattern.create CustomHttpPattern.from_partial
message_fns w http =
    fns_of (Http.encode w) (Http.decode w) Http.from_json Http.to_json Http.create Http.from_partial
