-- ===== src/Backend/Interceptor/Granted.antt =====
-- What a session token opens: internal/auth/interceptor.go, from the header of a call to its
-- handler.
use sample_grpc_service.Prelude.{ℕ, ◌+◌, ◌<◌, ◌≡◌, refl, String, Bool, true, false, some}
use sample_grpc_service.Backend.Tokens.{Library, LibraryLaws, issue_jwt}
use sample_grpc_service.Backend.Interceptor.{
  Reply, status, permission_denied, Context, with_claims, is_listed, unary_auth_interceptor,
}
use sample_grpc_service.Backend.Interceptor.Bearer.{bearer_header, extract-issue}

-- The methods of the two services, and who may call them.
pub data Access : Type 0 where
  anyone signed_in admin : Access

pub data Rpc : Type 0 where
  echo login_with_google get_current_user update_profile list_users : Rpc

-- The full name of a method: the package, the service and the method of the proto files.
abbrev pub full_name : Rpc → String
full_name echo = "/greeter.Greeter/Echo"
full_name login_with_google = "/greeter.AuthService/LoginWithGoogle"
full_name get_current_user = "/greeter.AuthService/GetCurrentUser"
full_name update_profile = "/greeter.AuthService/UpdateProfile"
full_name list_users = "/greeter.AuthService/ListUsers"

abbrev pub access : Rpc → Access
access echo = anyone
access login_with_google = anyone
access get_current_user = signed_in
access update_profile = signed_in
access list_users = admin

-- What becomes of a call by the user of a token.
abbrev pub granted {ℓ κ} :
    {Req : Type ℓ} {A : Type κ}
    → Access
    → String
    → Bool
    → Context
    → Req
    → (Context → Req → Reply A)
    → Reply A
granted anyone user_id is_admin ctx req handler = handler ctx req
granted signed_in user_id is_admin ctx req handler =
    handler (record ctx { claims = some (record { user_id = user_id; is_admin = is_admin }) }) req
granted admin user_id true ctx req handler =
    handler (record ctx { claims = some (record { user_id = user_id; is_admin = true }) }) req
granted admin user_id false ctx req handler = status permission_denied "admin access required"

module _ (l : Library) (laws : LibraryLaws l) {Req A : Type 0} where
  -- A call with a session JWT, sent as "Bearer <token>" within 24 hours of its issue. `Echo` and
  -- `LoginWithGoogle` run with the context as it came. `GetCurrentUser` and `UpdateProfile` run
  -- with the user id and the admin flag in the context that the token was issued for. So does
  -- `ListUsers` for an admin; for another user it is answered with `PermissionDenied` and does not
  -- run.
  pub interceptor-issue :
      (m : Rpc) (now later : ℕ) (user_id key token : String) (is_admin : Bool) (req : Req)
      (handler : Context → Req → Reply A)
      → issue_jwt l now user_id is_admin key ≡ some token
      → later < now + 86400
      → unary_auth_interceptor l later key (bearer_header token) req (full_name m) handler
        ≡ granted (access m) user_id is_admin (bearer_header token) req handler
  unfolding unary_auth_interceptor is_listed with_claims
  interceptor-issue echo now later user_id key token is_admin req handler h lt = refl
  interceptor-issue login_with_google now later user_id key token is_admin req handler h lt = refl
  interceptor-issue get_current_user now later user_id key token is_admin req handler h lt =
      rw (extract-issue l laws now later user_id key token is_admin h lt) refl
  interceptor-issue update_profile now later user_id key token is_admin req handler h lt =
      rw (extract-issue l laws now later user_id key token is_admin h lt) refl
  interceptor-issue list_users now later user_id key token true req handler h lt =
      rw (extract-issue l laws now later user_id key token true h lt) refl
  interceptor-issue list_users now later user_id key token false req handler h lt =
      rw (extract-issue l laws now later user_id key token false h lt) refl
