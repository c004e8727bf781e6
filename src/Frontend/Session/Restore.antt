-- ===== src/Frontend/Session/Restore.antt =====
-- What a reload of the page brings back, and what a failed check of the cached token does.
use sample_grpc_service.Prelude.{
  ◌≡◌, refl, String, Bool, false, Option, none, some, [], ◌∷◌, arith, str_eq, inl, inr, Bool-cases,
}
use sample_grpc_service.Prelude.Outcome.{ok, throw, Thrown}
use sample_grpc_service.Auth.User.{User}
use sample_grpc_service.Frontend.Session.{
  Provider, fresh, token_of, mount, settle, is_auth_error, signed_in, prompt, view, shown_name,
  Reach,
}
use sample_grpc_service.Frontend.Session.Coherence.{
  IsCoherent, at_start, outside, inside, Reach-IsCoherent,
}

-- A new page over the same localStorage.
unfoldable pub reload : Provider → Provider
unfolding mount
reload s = mount (fresh s.stored)

still_out :
    {t : Provider} (expired : Bool)
    → IsCoherent t
    → view t ≡ prompt expired
    → token_of t.stored ≡ none
unfolding view
still_out expired (at_start h) v = absurd (ground (arith, h.loading))
still_out expired (outside h) v = h.not_stored
still_out expired (inside h) v = absurd (ground (arith, h.not_loading, h.has_user))

-- In a reachable state that shows the sign-in button, a reload starts no check and shows the
-- button again, without the notice of expiry.
pub reload-signed_out :
    (stored : Option String) (t : Provider) (expired : Bool)
    → Reach (mount (fresh stored)) t
    → view t ≡ prompt expired
    → ((reload t).restoring ≡ []) × (view (reload t) ≡ prompt false)
unfolding reload view
reload-signed_out stored t expired r v =
    let e = still_out expired (Reach-IsCoherent stored t r) v in rw e (refl, refl)

same_token :
    {t : Provider} (name : String) (admin : Bool) (token : String)
    → IsCoherent t
    → view t ≡ signed_in name admin
    → t.jwt ≡ some token
    → t.stored ≡ some token
unfolding view
same_token name admin token (at_start h) v j = absurd (ground (arith, h.loading))
same_token name admin token (outside h) v j = absurd (ground (arith, h.not_loading, h.no_user))
same_token name admin token (inside h) v j = cc (h.stored, h.has_jwt, j)

-- In a reachable state where somebody is shown as signed in with a token that is not empty, a
-- reload starts one check of that token, and an answer to it brings back a session with that
-- token, stored as before, that shows the user of the answer.
pub reload-signed_in :
    (stored : Option String) (t : Provider) (name : String) (admin : Bool) (token : String)
    (u : User)
    → Reach (mount (fresh stored)) t
    → view t ≡ signed_in name admin
    → t.jwt ≡ some token
    → str_eq token "" ≡ false
    → ((reload t).restoring ≡ token ∷ [])
      × ((settle token (ok u) (reload t)).jwt ≡ t.jwt)
      × ((settle token (ok u) (reload t)).stored ≡ t.stored)
      × (view (settle token (ok u) (reload t)) ≡ signed_in (shown_name u) u.is_admin)
unfolding reload settle view
reload-signed_in stored t name admin token u r v j full =
    let e = same_token name admin token (Reach-IsCoherent stored t r) v j in
    rw (e, full) (refl, cc j, refl, refl)

mount-user :
    (stored : Option String)
    → ((mount (fresh stored)).user ≡ none) × ((mount (fresh stored)).session_expired ≡ false)
unfolding mount
mount-user none = (refl, refl)
mount-user (some t) = elim (Bool-cases (str_eq t "")) [
  | inl empty ↦ rw empty (refl, refl)
  | inr full ↦ rw full (refl, refl)
]

-- If the check of a cached token fails after the mount, with any error, localStorage holds no
-- token any more and the sign-in button is shown, with the notice of expiry exactly if the error
-- is an `AuthError`.
pub settle-throw :
    (stored : Option String) (cached : String) (e : Thrown)
    → ((settle cached (throw e) (mount (fresh stored))).stored ≡ none)
      × (view (settle cached (throw e) (mount (fresh stored))) ≡ prompt (is_auth_error e))
unfolding settle view
settle-throw stored cached e = let m = mount-user stored in (refl, ground (arith, m.0, m.1))
