-- ===== src/Backend/Interceptor/Access.antt =====
-- Which handlers run: internal/auth/interceptor.go.
use sample_grpc_service.Prelude.{
  ℕ, ◌≡◌, ◌⊎◌, inl, inr, refl, String, true, false, not, ◌&&◌, arith, if◌then◌else◌, Bool-cases,
}
use sample_grpc_service.Backend.Tokens.{Library, Claims}
use sample_grpc_service.Backend.Interceptor.{
  Reply, reply, status, Code, permission_denied, Context, with_claims, is_listed, public_rpcs,
  admin_rpcs, extract_claims, unary_auth_interceptor, ◌>>=◌,
}

pub Reply-cases {ℓ} :
    {A : Type ℓ} (r : Reply A)
    → ((a : A) × (r ≡ reply a)) ⊎ ((c : Code) × (m : String) × (r ≡ status c m))
Reply-cases (reply a) = inl (a, refl)
Reply-cases (status c m) = inr (c, m, refl)

module _ (l : Library) (now : ℕ) (jwt_secret : String) where
  -- How a call is admitted.
  pub data Admitted (ctx : Context) (full_method : String) : Context → Type 0 where
    open_to_all : is_listed public_rpcs full_method ≡ true → Admitted ctx full_method ctx
    with_token :
        (c : Claims)
        → extract_claims l now jwt_secret ctx ≡ reply c
        → (is_listed admin_rpcs full_method ≡ true → c.is_admin ≡ true)
        → Admitted ctx full_method (with_claims ctx c)

module _ (l : Library) (now : ℕ) (jwt_secret : String) {Req A : Type 0} where
  denied_or_run :
      (ctx : Context) (req : Req) (full_method : String) (handler : Context → Req → Reply A) (a : A)
      (r : Reply Claims)
      → extract_claims l now jwt_secret ctx ≡ r
      → (r >>= λ c.
          if is_listed admin_rpcs full_method && not c.is_admin
          then status permission_denied "admin access required"
          else handler (with_claims ctx c) req)
        ≡ reply a
      → (ctx' : Context) × Admitted l now jwt_secret ctx full_method ctx'
        × (handler ctx' req ≡ reply a)
  denied_or_run ctx req full_method handler a (status c m) e h = absurd (cc h)
  denied_or_run ctx req full_method handler a (reply c) e h =
      elim (Bool-cases (is_listed admin_rpcs full_method && not c.is_admin)) [
        | inl denied ↦ absurd (cc (rw denied at h))
        | inr fine ↦
            (with_claims ctx c, with_token c e (λ admin. ground (arith, admin, fine)), rw fine at h)
      ]

  -- A call gets the reply of its handler only if it was admitted: to a public method with the
  -- context as it came, or with the claims of a valid token put into the context, which are an
  -- admin's where the method is for admins.
  pub interceptor_sound :
      (ctx : Context) (req : Req) (full_method : String) (handler : Context → Req → Reply A) (a : A)
      → unary_auth_interceptor l now jwt_secret ctx req full_method handler ≡ reply a
      → (ctx' : Context) × Admitted l now jwt_secret ctx full_method ctx'
        × (handler ctx' req ≡ reply a)
  unfolding unary_auth_interceptor
  interceptor_sound ctx req full_method handler a h =
      elim (Bool-cases (is_listed public_rpcs full_method)) [
        | inl open_method ↦ (ctx, open_to_all open_method, rw open_method at h)
        | inr gated ↦
            denied_or_run ctx req full_method handler a (extract_claims l now jwt_secret ctx) refl
              (rw gated at h)
      ]

  -- The three outcomes of a gated call.
  pub interceptor_cases :
      (ctx : Context) (req : Req) (full_method : String) (handler : Context → Req → Reply A)
      → is_listed public_rpcs full_method ≡ false
      → ((c : Claims) × (extract_claims l now jwt_secret ctx ≡ reply c)
          × ((is_listed admin_rpcs full_method && not c.is_admin) ≡ false)
          × (unary_auth_interceptor l now jwt_secret ctx req full_method handler
              ≡ handler (with_claims ctx c) req))
        ⊎ (((c : Claims) × (extract_claims l now jwt_secret ctx ≡ reply c)
              × (is_listed admin_rpcs full_method ≡ true)
              × (c.is_admin ≡ false)
              × (unary_auth_interceptor l now jwt_secret ctx req full_method handler
                  ≡ status permission_denied "admin access required"))
            ⊎ ((k : Code) × (m : String) × (extract_claims l now jwt_secret ctx ≡ status k m)
                × (unary_auth_interceptor l now jwt_secret ctx req full_method handler
                    ≡ status k m)))
  unfolding unary_auth_interceptor
  interceptor_cases ctx req full_method handler gated =
      elim (Reply-cases (extract_claims l now jwt_secret ctx)) [
        | inl (c, e) ↦ elim (Bool-cases (is_listed admin_rpcs full_method && not c.is_admin)) [
          | inl denied ↦ inr (
              inl (c, e, ground (arith, denied), ground (arith, denied), rw (gated, e) (rw denied)))
          | inr fine ↦ inl (c, e, fine, rw (gated, e) (rw fine))
        ]
        | inr (k, m, e) ↦ inr (inr (k, m, e, rw (gated, e)))
      ]
