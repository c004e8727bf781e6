-- ===== src/Backend/Interceptor/Bearer.antt =====
-- The header of a call: internal/auth/interceptor.go.
use sample_grpc_service.Prelude.{
  ℕ, ◌+◌, ◌<◌, ◌≡◌, ap, ◌∙◌, String, Bool, false, Option, none, some, List, [], ◌∷◌, arith, str_eq,
  eq_iff, inl, inr, Bool-cases,
}
use sample_grpc_service.Backend.Tokens.{Library, LibraryLaws, Claims, validate_jwt, issue_jwt}
use sample_grpc_service.Backend.Tokens.Session.{validate-issue}
use sample_grpc_service.Backend.Interceptor.{
  reply, status, Code, unauthenticated, Context, get_all, checked, from_header, from_metadata,
  extract_claims,
}
use sample_grpc_service.Backend.Text.{trim_prefix}
use sample_grpc_service.Backend.Text.Contains.{strip_prefix-append}
use Prim.Native.String
use text.Mathlib.TextLemmas.{length-append}

-- Taking the prefix off gives back what stood behind it.
trim_prefix-append : (p s : String) → trim_prefix (String.◌++◌ p s) p ≡ s
unfolding trim_prefix
trim_prefix-append p s = rw (strip_prefix-append p s)

abbrev pub bearer_header : String → Context
bearer_header token = record {
  metadata = some (("authorization", String.◌++◌ "Bearer " token ∷ []) ∷ []);
  claims = none;
}

seven : (t : String) → str_eq t (String.◌++◌ "Bearer " t) ≡ false
seven t = elim (Bool-cases (str_eq t (String.◌++◌ "Bearer " t))) [
  | inl same ↦
      let e : t ≡ String.◌++◌ "Bearer " t = (eq_iff t (String.◌++◌ "Bearer " t)).0 same in
      let n = ap String.count e ∙ length-append "Bearer " t in absurd (omega (arith, n))
  | inr other ↦ other
]

module _ (l : Library) (laws : LibraryLaws l) where
  -- A session JWT sent as "Bearer <token>" in the authorization metadata gives, until 24 hours
  -- after it was issued, the claims that it was issued for.
  pub extract-issue :
      (now later : ℕ) (user_id key token : String) (is_admin : Bool)
      → issue_jwt l now user_id is_admin key ≡ some token
      → later < now + 86400
      → extract_claims l later key (bearer_header token)
        ≡ reply (record { user_id = user_id; is_admin = is_admin })
  unfolding extract_claims get_all
  extract-issue now later user_id key token is_admin h lt =
      rw (trim_prefix-append "Bearer " token)
        (rw (seven token) (rw (validate-issue l laws now later user_id key token is_admin h lt)))

module _ (l : Library) (now : ℕ) (key : String) (c : Code) (m : String) where
  checked-status : (o : Option Claims) → checked l now key o ≡ status c m → c ≡ unauthenticated
  unfolding checked
  checked-status none h = cc h
  checked-status (some k) h = cc h

  from_header-status :
      (vs : List String) → from_header l now key vs ≡ status c m → c ≡ unauthenticated
  unfolding from_header
  from_header-status [] h = cc h
  from_header-status (v ∷ vs) h = elim (Bool-cases (str_eq (trim_prefix v "Bearer ") v)) [
    | inl same ↦ cc (rw same at h)
    | inr other ↦ checked-status (validate_jwt l now (trim_prefix v "Bearer ") key) (rw other at h)
  ]

  from_metadata-status :
      (md : Option (List (String × List String)))
      → from_metadata l now key md ≡ status c m
      → c ≡ unauthenticated
  unfolding from_metadata
  from_metadata-status none h = cc h
  from_metadata-status (some md) h = from_header-status (get_all "authorization" md) h

-- If `extractClaims` fails, the status is `Unauthenticated`, whatever is wrong with the metadata
-- or the token.
pub extract_claims-status :
    (l : Library) (now : ℕ) (key : String) (ctx : Context) (c : Code) (m : String)
    → extract_claims l now key ctx ≡ status c m
    → c ≡ unauthenticated
unfolding extract_claims
extract_claims-status l now key ctx c m h = from_metadata-status l now key c m ctx.metadata h
