-- ===== src/Frontend/Session/Remount.antt =====
-- `StrictMode` of web/src/main.tsx runs the effect of `AuthProvider` twice on a development page.
use sample_grpc_service.Prelude.{
  ◌≡◌, refl, String, Bool, false, none, some, [], ◌∷◌, ◌++◌, ap, ◌∙◌, str_eq, if◌then◌else◌,
}
use sample_grpc_service.Prelude.Outcome.{ok}
use sample_grpc_service.Auth.User.{User}
use sample_grpc_service.Frontend.Session.{
  Provider, fresh, token_of, restore, mount, settle, sign_out, signed_in, view, shown_name,
}

mount-cached :
    (s : Provider) (t : String)
    → s.stored ≡ some t
    → str_eq t "" ≡ false
    → mount s ≡ record s { restoring = s.restoring ++ (t ∷ []) }
unfolding mount
mount-cached s t e full =
    ap (λ o. restore (token_of o) s) e
    ∙ ap (λ (b : Bool). restore (if b then none else some t) s) full

-- The user signs out after the first of the two checks has been answered; then the second is.
unfoldable pub resurrect : String → User → User → Provider
unfolding settle sign_out
resurrect t u u' = settle t (ok u') (sign_out (settle t (ok u) (mount (mount (fresh (some t))))))

-- If the effect of the provider runs twice over a cached token that is not empty, two checks of it
-- are in flight; and if the first is answered, the user signs out and then the second is answered,
-- the page shows a signed-in user with the token in memory, while localStorage holds none.
pub resurrect_lem :
    (t : String) (u u' : User)
    → str_eq t "" ≡ false
    → ((mount (mount (fresh (some t)))).restoring ≡ t ∷ t ∷ [])
      × (view (resurrect t u u') ≡ signed_in (shown_name u') u'.is_admin)
      × ((resurrect t u u').jwt ≡ some t)
      × ((resurrect t u u').stored ≡ none)
unfolding resurrect view
resurrect_lem t u u' full =
    let first = mount-cached (fresh (some t)) t refl full in
    let second = mount-cached (record (fresh (some t)) { restoring = t ∷ [] }) t refl full in
    (ap (λ (s : Provider). s.restoring) (ap mount first ∙ second), refl, refl, refl)
