-- ===== src/Frontend/Session.antt =====
-- web/src/auth/AuthContext.tsx and web/src/auth/AuthBar.tsx: the life of the session JWT in the
-- browser. The state is that of `AuthProvider`, with the item of localStorage that it uses and the
-- calls that it and `AuthBar` have in flight.
pub mod Coherence
pub mod Restore
pub mod Remount
pub mod Refinement
pub mod Liveness
use sample_grpc_service.Prelude.{
  ℕ, zero, suc, ◌≡◌, ◌≢◌, String, Bool, true, false, not, ◌&&◌, Option, none, some, List, [], ◌∷◌,
  ◌++◌, str_eq, if◌then◌else◌,
}
use sample_grpc_service.Prelude.Outcome.{Outcome, ok, throw, stuck, Thrown, auth_error}
use sample_grpc_service.Auth.User.{User}
use sample_grpc_service.Frontend.Api.{SessionResponseJson}

pub record Provider : Type 0 where
  pub user : Option User
  pub jwt : Option String
  pub loading : Bool
  pub session_expired : Bool
  -- localStorage, at STORAGE_KEY
  pub stored : Option String
  -- the calls of `getCurrentUser` that are not settled, by their tokens
  pub restoring : List String
  -- the calls of `loginWithGoogle` that are not settled
  pub logins : ℕ

-- The state at the first render, over what localStorage holds.
abbrev pub fresh : Option String → Provider
fresh stored = record {
  user = none;
  jwt = none;
  loading = true;
  session_expired = false;
  stored = stored;
  restoring = [];
  logins = 0;
}

-- `!cached` of a text that may be missing
abbrev pub token_of : Option String → Option String
token_of none = none
token_of (some t) = if str_eq t "" then none else some t

restore : Option String → Provider → Provider
restore none s = record s { loading = false }
restore (some cached) s = record s { restoring = s.restoring ++ (cached ∷ []) }

-- The effect on mount.
unfoldable pub mount : Provider → Provider
unfolding restore
mount s = restore (token_of s.stored) s

abbrev is_auth_error : Thrown → Bool
is_auth_error (auth_error m) = true
is_auth_error _ = false

-- `.then(…).catch(…).finally(…)` of the restoring call. A promise that never settles takes no step.
unfoldable pub settle : String → Outcome User → Provider → Provider
settle cached (ok u) s = record s { jwt = some cached; user = some u; loading = false }
settle cached (throw e) s = record s {
  session_expired = if is_auth_error e then true else s.session_expired;
  stored = none;
  loading = false;
}
settle cached stuck s = s

unfoldable pub sign_in : String → User → Provider → Provider
sign_in new_jwt new_user s = record s {
  stored = some new_jwt;
  jwt = some new_jwt;
  user = some new_user;
  session_expired = false;
}

unfoldable pub sign_out : Provider → Provider
sign_out s = record s { stored = none; jwt = none; user = none }

-- What `AuthBar` renders: the name shown, and whether there is an admin badge; or the Google button,
-- with or without the notice of expiry.
pub data View : Type 0 where
  busy : View
  signed_in : String → Bool → View
  prompt : Bool → View

abbrev pub shown_name : User → String
shown_name u = if str_eq u.username "" then u.display_name else u.username

view_user : Option User → Bool → View
view_user none expired = prompt expired
view_user (some u) expired = signed_in (shown_name u) u.is_admin

unfoldable pub view : Provider → View
unfolding view_user
view s = if s.loading then busy else view_user s.user s.session_expired

-- `handleGoogleSuccess` up to its `await`.
unfoldable pub start_login : Option String → Provider → Provider
start_login credential s = elim (token_of credential) [
  | none ↦ s
  | some t ↦ record s { logins = suc s.logins }
]

-- The rest of it; an error is only logged.
unfoldable pub finish_login : Outcome SessionResponseJson → Provider → Provider
unfolding sign_in
finish_login (ok session) s = sign_in session.jwt session.user s
finish_login (throw e) s = s
finish_login stuck s = s

-- One event of a page. The buttons act only where they are rendered.
pub data Step : Provider → Provider → Type 0 where
  settled :
      {s : Provider} (cached : String) (before after : List String) (res : Outcome User)
      → s.restoring ≡ before ++ (cached ∷ after)
      → res ≢ stuck
      → Step s (settle cached res (record s { restoring = before ++ after }))
  google_success :
      {s : Provider} (expired : Bool) (credential : Option String)
      → view s ≡ prompt expired
      → Step s (start_login credential s)
  login_settled :
      {s : Provider} (n : ℕ) (res : Outcome SessionResponseJson)
      → s.logins ≡ suc n
      → Step s (finish_login res (record s { logins = n }))
  signed_out_by :
      {s : Provider} (name : String) (admin : Bool)
      → view s ≡ signed_in name admin
      → Step s (sign_out s)

pub data Reach (s : Provider) : Provider → Type 0 where
  here : Reach s s
  next : {t u : Provider} → Reach s t → Step t u → Reach s u
