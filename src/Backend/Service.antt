-- ===== src/Backend/Service.antt =====
-- internal/auth/service.go: the handlers of AuthService. A handler with access to the database takes
-- its state and gives the next; the context's deadline is left out.
pub mod Login
pub mod Profile
pub mod Rename
use sample_grpc_service.Prelude.{
  ℕ, ◌≡◌, String, Bool, true, false, not, ◌&&◌, Option, none, some, List, map, str_eq,
  if◌then◌else◌,
}
use sample_grpc_service.Partial.{get_or}
use sample_grpc_service.Auth.User.{User}
use sample_grpc_service.Auth.SessionResponse.{SessionResponse}
use sample_grpc_service.Auth.GoogleLoginRequest.{GoogleLoginRequest}
use sample_grpc_service.Auth.UpdateProfileRequest.{UpdateProfileRequest}
use sample_grpc_service.Auth.GetCurrentUserRequest.{GetCurrentUserRequest}
use sample_grpc_service.Auth.ListUsersRequest.{ListUsersRequest}
use sample_grpc_service.Auth.ListUsersResponse.{ListUsersResponse}
use sample_grpc_service.Backend.Jwk.{JwkKey, RsaKey}
use sample_grpc_service.Backend.Tokens.{
  Library, Claims, GoogleClaims, issue_jwt, verify_google_id_token,
}
use sample_grpc_service.Backend.Interceptor.{
  Reply, reply, status, Code, invalid_argument, unauthenticated, not_found, already_exists,
  internal, Context, claims_from_context,
}
use sample_grpc_service.Backend.Usernames.{username_re}
use sample_grpc_service.Backend.Users.{
  DbUser, Orm, Result, done, fail, DbError, username_taken, failed, upsert_user, update_username,
  get_user_by_id, list_users as stored_users,
}

-- `Server`, without its database.
pub record Server : Type 0 where
  pub jwt_secret : String
  pub jwks_url : String
  pub google_client_id : String

abbrev pub default_jwks_url : String
default_jwks_url = "https://www.googleapis.com/oauth2/v3/certs"

-- `NewServer`, by what the environment holds under a name, "" where it holds nothing.
unfoldable pub new_server : (String → String) → Server
new_server getenv = record {
  jwt_secret = getenv "JWT_SECRET";
  jwks_url =
      if str_eq (getenv "GOOGLE_JWKS_URL") "" then default_jwks_url else getenv "GOOGLE_JWKS_URL";
  google_client_id = getenv "GOOGLE_CLIENT_ID";
}

unfoldable pub user_to_proto : DbUser → User
user_to_proto u = record {
  id = u.id;
  email = u.email;
  display_name = u.display_name;
  username = get_or "" u.username;
  picture_url = get_or "" u.picture_url;
  is_admin = u.is_admin;
}

module _ (l : Library) (fetch : String → Option (List JwkKey)) (db : Orm) (server : Server) where
  session : DbUser → Option String → Reply SessionResponse
  unfolding user_to_proto
  session u none = status internal "failed to issue session token"
  session u (some jwt) = reply (record { jwt = jwt; user = some (user_to_proto u) })

  after_upsert : ℕ → Result DbUser × db.State → Reply SessionResponse × db.State
  unfolding session
  after_upsert now (fail e, st) = (status internal "failed to upsert user", st)
  after_upsert now (done u, st) =
      (session u (issue_jwt l now u.id u.is_admin server.jwt_secret), st)

  after_verify :
      ℕ → (ℕ → String) → Option GoogleClaims → db.State → Reply SessionResponse × db.State
  unfolding after_upsert
  after_verify now candidate none st = (status unauthenticated "invalid Google ID token", st)
  after_verify now candidate (some g) st =
      after_upsert now (upsert_user db g.sub g.email g.display_name g.picture candidate st)

  -- `LoginWithGoogle`, at a time; `candidate i` is the i-th username that is generated.
  unfoldable pub login_with_google :
      ℕ → (ℕ → String) → GoogleLoginRequest → db.State → Reply SessionResponse × db.State
  unfolding after_verify
  login_with_google now candidate req st =
      if str_eq req.id_token ""
      then (status invalid_argument "id_token is required", st)
      else after_verify now candidate
          (verify_google_id_token l fetch now req.id_token server.jwks_url server.google_client_id)
          st

module _ (db : Orm) where
  update_failed : DbError → Reply User
  update_failed username_taken = status already_exists "username is already taken"
  update_failed (failed m) = status internal "failed to update profile"

  updated : Result DbUser × db.State → Reply User × db.State
  unfolding user_to_proto update_failed
  updated (done u, st) = (reply (user_to_proto u), st)
  updated (fail e, st) = (update_failed e, st)

  update_as : Option Claims → UpdateProfileRequest → db.State → Reply User × db.State
  unfolding updated
  update_as none req st = (status unauthenticated "missing auth context", st)
  update_as (some c) req st =
      if not (str_eq req.username "") && not (username_re req.username)
      then (
        status invalid_argument
            "username must be 3–30 characters and contain only letters, numbers, and underscores",
        st,
      )
      else updated (update_username db c.user_id req.username st)

  unfoldable pub update_profile : Context → UpdateProfileRequest → db.State → Reply User × db.State
  unfolding update_as
  update_profile ctx req st = update_as (claims_from_context ctx) req st

  found : Result DbUser → Reply User
  unfolding user_to_proto
  found (done u) = reply (user_to_proto u)
  found (fail e) = status not_found "user not found"

  current : Option Claims → db.State → Reply User
  unfolding found
  current none st = status unauthenticated "missing auth context"
  current (some c) st = found (get_user_by_id db c.user_id st)

  unfoldable pub get_current_user : db.State → Context → GetCurrentUserRequest → Reply User
  unfolding current
  get_current_user st ctx req = current (claims_from_context ctx) st

  all_users : Result (List DbUser) → Reply ListUsersResponse
  unfolding user_to_proto
  all_users (done users) = reply (record { users = map user_to_proto users })
  all_users (fail e) = status internal "failed to list users"

  -- `ListUsers`; the caller is not looked at.
  unfoldable pub list_users : db.State → Context → ListUsersRequest → Reply ListUsersResponse
  unfolding all_users
  list_users st ctx req = all_users (stored_users db st)
