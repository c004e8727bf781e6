-- ===== src/Backend/Tokens/Session.antt =====
-- Session JWTs of internal/auth/auth.go, issued and validated.
use sample_grpc_service.Prelude.{
  ℕ, ◌+◌, ◌<◌, ◌≡◌, refl, String, Bool, some, arith, str_eq, inl, inr, Bool-cases, Option-cases,
}
use sample_grpc_service.Backend.Tokens.{
  Library, LibraryLaws, Claims, MapClaims, claim, hmac_only, claims_of, validate_jwt, issue_jwt,
  session_claims,
}

module _ (l : Library) (laws : LibraryLaws l) where
  -- A session JWT issued for a user validates under the same secret at each time before 24 hours
  -- have passed, with the user id and the admin flag that it was issued for.
  pub validate-issue :
      (now later : ℕ) (user_id key token : String) (is_admin : Bool)
      → issue_jwt l now user_id is_admin key ≡ some token
      → later < now + 86400
      → validate_jwt l later token key ≡ some (record { user_id = user_id; is_admin = is_admin })
  unfolding issue_jwt validate_jwt claim
  validate-issue now later user_id key token is_admin h lt =
      let mc = session_claims l now user_id is_admin in
      let p =
        laws.parse-sign (hmac_only key) later (now + 86400) mc key token h refl
          (laws.sign_expiry mc (now + 86400) refl) lt refl in
      rw (laws.sign_not_empty mc key token h, p)

  -- A validated token is dated: whatever its claims, it has an expiry, and that lies ahead.
  pub validate_dated :
      (now : ℕ) (token key : String) (c : Claims)
      → validate_jwt l now token key ≡ some c
      → (mc : MapClaims) × (exp : ℕ) × (l.parse (hmac_only key) now token ≡ some mc)
        × (l.expiry mc ≡ some exp)
        × (now < exp)
        × (claims_of mc ≡ c)
  unfolding validate_jwt
  validate_dated now token key c h = elim (Bool-cases (str_eq token "")) [
    | inl empty ↦ absurd (ground (arith, empty))
    | inr full ↦ elim (Option-cases (l.parse (hmac_only key) now token)) [
      | inl refused ↦ absurd (ground (arith, full, refused))
      | inr (mc, p) ↦
          let (exp, e, lt) = laws.parse_expiry (hmac_only key) now token mc p in
          (mc, exp, p, e, lt, ground (arith, full, p))
    ]
  ]
