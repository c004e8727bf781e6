-- ===== src/Backend/Service/Login.antt =====
-- Signing in: what a session of `LoginWithGoogle` is worth.
use sample_grpc_service.Prelude.{
  ℕ, ◌+◌, ◌<◌, ◌≡◌, refl, sym, ap, ◌⊎◌, String, true, false, Option, none, some, List, str_eq, inl,
  inr, Bool-cases,
}
use sample_grpc_service.Auth.GoogleLoginRequest.{GoogleLoginRequest}
use sample_grpc_service.Auth.GetCurrentUserRequest.{GetCurrentUserRequest}
use sample_grpc_service.Auth.SessionResponse.{SessionResponse}
use sample_grpc_service.Auth.User.{User}
use sample_grpc_service.Backend.Jwk.{JwkKey}
use sample_grpc_service.Backend.Tokens.{
  Library, LibraryLaws, GoogleClaims, issue_jwt, verify_google_id_token,
}
use sample_grpc_service.Backend.Interceptor.{
  reply, is_listed, unary_auth_interceptor, extract_claims, claims_from_context, with_claims,
}
use sample_grpc_service.Backend.Interceptor.Bearer.{bearer_header, extract-issue}
use sample_grpc_service.Backend.Users.{DbUser, Orm, OrmLaws, Result, done, fail, good, upsert_user}
use sample_grpc_service.Backend.Users.Upsert.{upsert_user_sound, get-found}
use sample_grpc_service.Backend.Service.{
  Server, user_to_proto, session, after_upsert, after_verify, login_with_google, current, found,
  get_current_user,
}

module _ (l : Library) (laws : LibraryLaws l) (fetch : String → Option (List JwkKey)) (db : Orm)
    (db_laws : OrmLaws db) (server : Server) where
  session_sound :
      (u : DbUser) (o : Option String) (s : SessionResponse)
      → session l fetch db server u o ≡ reply s
      → (o ≡ some s.jwt) × (s.user ≡ some (user_to_proto u))
  unfolding session
  session_sound u none s h = absurd (cc h)
  session_sound u (some jwt) s h =
      let e : record { jwt = jwt; user = some (user_to_proto u) } ≡ s = cc h in
      (ap (λ (x : SessionResponse). some x.jwt) e, sym (ap (λ (x : SessionResponse). x.user) e))

  after_upsert_sound :
      (now : ℕ) (p : Result DbUser × db.State) (s : SessionResponse) (st' : db.State)
      → after_upsert l fetch db server now p ≡ (reply s, st')
      → (u : DbUser) × (p ≡ (done u, st'))
        × (issue_jwt l now u.id u.is_admin server.jwt_secret ≡ some s.jwt)
        × (s.user ≡ some (user_to_proto u))
  unfolding after_upsert
  after_upsert_sound now (fail e, st) s st' h = absurd (cc h)
  after_upsert_sound now (done u, st) s st' h =
      let (signed, shown) =
        session_sound u (issue_jwt l now u.id u.is_admin server.jwt_secret) s (cc h) in
      (u, cc h, signed, shown)

  after_verify_sound :
      (now : ℕ) (candidate : ℕ → String) (o : Option GoogleClaims) (st st' : db.State)
      (s : SessionResponse)
      → after_verify l fetch db server now candidate o st ≡ (reply s, st')
      → (g : GoogleClaims) × (u : DbUser) × (o ≡ some g)
        × (upsert_user db g.sub g.email g.display_name g.picture candidate st ≡ (done u, st'))
        × (issue_jwt l now u.id u.is_admin server.jwt_secret ≡ some s.jwt)
        × (s.user ≡ some (user_to_proto u))
  unfolding after_verify
  after_verify_sound now candidate none st st' s h = absurd (cc h)
  after_verify_sound now candidate (some g) st st' s h =
      let (u, stored, signed, shown) = after_upsert_sound now _ s st' h in
      (g, u, refl, stored, signed, shown)

  login_steps :
      (now : ℕ) (candidate : ℕ → String) (req : GoogleLoginRequest) (st st' : db.State)
      (s : SessionResponse)
      → login_with_google l fetch db server now candidate req st ≡ (reply s, st')
      → (g : GoogleClaims) × (u : DbUser) × (verify_google_id_token l fetch now req.id_token
            server.jwks_url server.google_client_id
          ≡ some g)
        × (upsert_user db g.sub g.email g.display_name g.picture candidate st ≡ (done u, st'))
        × (issue_jwt l now u.id u.is_admin server.jwt_secret ≡ some s.jwt)
        × (s.user ≡ some (user_to_proto u))
  unfolding login_with_google
  login_steps now candidate req st st' s h = elim (Bool-cases (str_eq req.id_token "")) [
    | inl empty ↦ absurd (cc (rw empty at h))
    | inr full ↦ after_verify_sound now candidate _ st st' s (rw full at h)
  ]

  -- If `LoginWithGoogle` answers with a session, the Google token verified; the user shown is one
  -- whose row has the subject of the token and is stored under its id, unless that subject is
  -- empty; and for 24 hours the session JWT, sent as bearer token, gives the id and the admin flag
  -- of that user.
  pub login_sound :
      (now later : ℕ) (candidate : ℕ → String) (req : GoogleLoginRequest) (st st' : db.State)
      (s : SessionResponse)
      → login_with_google l fetch db server now candidate req st ≡ (reply s, st')
      → later < now + 86400
      → (g : GoogleClaims) × (u : DbUser) × (verify_google_id_token l fetch now req.id_token
            server.jwks_url server.google_client_id
          ≡ some g)
        × ((str_eq g.sub "" ≡ true) ⊎ ((u.google_sub ≡ g.sub) × (db.first_by_id u.id st' ≡ good u)))
        × (s.user ≡ some (user_to_proto u))
        × (extract_claims l later server.jwt_secret (bearer_header s.jwt)
            ≡ reply (record { user_id = u.id; is_admin = u.is_admin }))
  login_sound now later candidate req st st' s h lt =
      let (g, u, verified, stored, signed, shown) = login_steps now candidate req st st' s h in
      (
        g,
        u,
        verified,
        elim (Bool-cases (str_eq g.sub "")) [
          | inl empty ↦ inl empty
          | inr full ↦ inr (
              upsert_user_sound db db_laws g.sub g.email g.display_name g.picture candidate st st' u
                full stored)
        ],
        shown,
        extract-issue l laws now later u.id server.jwt_secret s.jwt u.is_admin signed lt,
      )

  -- If `LoginWithGoogle` answers with a session, for a Google token that verifies with a subject
  -- that is not empty, then within 24 hours, on the database it left, a call of `GetCurrentUser`
  -- with the session JWT as bearer token passes the interceptor and is answered with the user of
  -- the session.
  pub get_current_user-login :
      (now later : ℕ) (candidate : ℕ → String) (req : GoogleLoginRequest) (st st' : db.State)
      (s : SessionResponse) (g : GoogleClaims) (me : GetCurrentUserRequest)
      → login_with_google l fetch db server now candidate req st ≡ (reply s, st')
      → later < now + 86400
      → verify_google_id_token l fetch now req.id_token server.jwks_url server.google_client_id
        ≡ some g
      → str_eq g.sub "" ≡ false
      → (u : User) × (s.user ≡ some u)
        × (unary_auth_interceptor l later server.jwt_secret
              (bearer_header s.jwt)
              me
              "/greeter.AuthService/GetCurrentUser"
              (get_current_user db st')
            ≡ reply u)
  unfolding unary_auth_interceptor get_current_user current found is_listed claims_from_context
      with_claims
  get_current_user-login now later candidate req st st' s g me h lt verified full =
      let (g', u, verified', stored, shown, claims) =
        login_sound now later candidate req st st' s h lt in
      let same : g' ≡ g = cc (verified, verified') in
      elim stored [
        | inl empty ↦ absurd (cc (ap (λ (x : GoogleClaims). str_eq x.sub "") same, empty, full))
        | inr (sub, there) ↦
            (user_to_proto u, shown, rw claims (rw (get-found db db_laws u.id st' u there)))
      ]
