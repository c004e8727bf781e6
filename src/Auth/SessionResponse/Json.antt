-- ===== src/Auth/SessionResponse/Json.antt =====
-- The JSON and the partials of SessionResponse in
-- web/src/generated/auth.ts.
use sample_grpc_service.Prelude.{◌≡◌, true, some}
use sample_grpc_service.Prelude.Outcome.{ok}
use sample_grpc_service.Js.{is_set}
use mathlib.Core.Option
use sample_grpc_service.Js.Laws.{own_laws, read_laws, message_or_undefined-default, is_set-obj}
use sample_grpc_service.Partial.{Option-map-inverse}
use sample_grpc_service.Auth.SessionResponse.{
  SessionResponse, SessionResponsePartial, create_base, from_json, to_json, from_partial,
}
use sample_grpc_service.Auth.User
use sample_grpc_service.Auth.User.{User, UserPartial}
use sample_grpc_service.Auth.User.Json as UserJson

-- `fromJSON` of what `toJSON` gives for a message of SessionResponse succeeds with that message.
pub session_response_from_json-to_json : (m : SessionResponse) → from_json (to_json m) ≡ ok m
unfolding from_json to_json
session_response_from_json-to_json m =
    simp (own_laws, read_laws)
      (rw (
        message_or_undefined-default User.to_json User.from_json m.user
          UserJson.user_from_json-to_json UserJson.is_set-to_json))

pub is_set-to_json : (m : SessionResponse) → is_set (to_json m) ≡ true
unfolding to_json
is_set-to_json m = is_set-obj _

-- All of a message, as an argument of `fromPartial`.
abbrev pub whole : SessionResponse → SessionResponsePartial
whole m = record { jwt = some m.jwt; user = Option.map UserJson.whole m.user }

pub session_response_from_partial-whole : (m : SessionResponse) → from_partial (whole m) ≡ m
unfolding from_partial create_base
session_response_from_partial-whole m =
    rw (Option-map-inverse UserJson.whole User.from_partial UserJson.user_from_partial-whole m.user)
