-- ===== src/Backend/Tokens.antt =====
-- internal/auth/auth.go: session JWTs and Google ID tokens. The library golang-jwt and the fetch of
-- the key set are parameters.
pub mod Session
pub mod Google
use sample_grpc_service.Backend.Jwk.{JwkKey, RsaKey, jwk_to_rsa}
use sample_grpc_service.Prelude.{
  ℕ, ◌+◌, ◌<◌, ◌≡◌, String, Bool, true, false, not, ◌&&◌, ◌||◌, Option, none, some, List, [], ◌∷◌,
  str_eq, if◌then◌else◌,
}

-- A value of `jwt.MapClaims`. Of the members of an array only texts are read.
pub data Claim : Type 0 where
  text : String → Claim
  flag : Bool → Claim
  num : ℕ → Claim
  array : List (Option String) → Claim
  other : Claim

abbrev pub MapClaims : Type 0
MapClaims = List (String × Claim)

unfoldable pub claim : String → MapClaims → Option Claim
claim k [] = none
claim k ((j, v) ∷ mc) = if str_eq j k then some v else claim k mc

-- `mc[k].(string)` and `mc[k].(bool)`, with the zero value where the assertion fails
abbrev pub as_text : Option Claim → String
as_text (some (text s)) = s
as_text _ = ""

abbrev pub as_flag : Option Claim → Bool
as_flag (some (flag b)) = b
as_flag _ = false

-- The type of `t.Method`.
pub data Method : Type 0 where
  hmac rsa unknown : Method

pub data Key : Type 0 where
  secret : String → Key
  public : RsaKey → Key

pub record Library : Type 1 where
  -- `jwt.NewWithClaims(SigningMethodHS256, claims).SignedString(secret)`
  pub sign : MapClaims → String → Option String
  -- `jwt.ParseWithClaims(token, …, keyfunc, WithExpirationRequired())` at a time, with the key
  -- function by the kind of method: the claims of a valid token
  pub parse : (Method → Option Key) → ℕ → String → Option MapClaims
  -- `ParseUnverified`: the `kid` of the header, "" if it has none
  pub header_kid : String → Option String
  -- the date in `exp`
  pub expiry : MapClaims → Option ℕ

-- The documented behaviour of the library.
pub record LibraryLaws (l : Library) : Type 0 where
  pub parse-sign :
      (keys : Method → Option Key) (now exp : ℕ) (mc : MapClaims) (key token : String)
      → l.sign mc key ≡ some token
      → keys hmac ≡ some (secret key)
      → l.expiry mc ≡ some exp
      → now < exp
      → claim "nbf" mc ≡ none
      → l.parse keys now token ≡ some mc
  pub parse_expiry :
      (keys : Method → Option Key) (now : ℕ) (token : String) (mc : MapClaims)
      → l.parse keys now token ≡ some mc
      → (exp : ℕ) × (l.expiry mc ≡ some exp) × (now < exp)
  pub sign_expiry :
      (mc : MapClaims) (exp : ℕ) → claim "exp" mc ≡ some (num exp) → l.expiry mc ≡ some exp
  pub sign_not_empty :
      (mc : MapClaims) (key token : String) → l.sign mc key ≡ some token → str_eq token "" ≡ false

pub record Claims : Type 0 where
  pub user_id : String
  pub is_admin : Bool

-- The key function of `ValidateJWT`.
abbrev pub hmac_only : String → Method → Option Key
hmac_only key hmac = some (secret key)
hmac_only key _ = none

abbrev pub claims_of : MapClaims → Claims
claims_of mc = record {
  user_id = as_text (claim "user_id" mc);
  is_admin = as_flag (claim "is_admin" mc);
}

module _ (l : Library) where
  -- `none` is ErrUnauthenticated.
  unfoldable pub validate_jwt : ℕ → String → String → Option Claims
  validate_jwt now token key =
      if str_eq token ""
      then none
      else elim (l.parse (hmac_only key) now token) [ none ↦ none | some mc ↦ some (claims_of mc) ]

  abbrev pub session_claims : ℕ → String → Bool → MapClaims
  session_claims now user_id is_admin =
      ("user_id", text user_id)
      ∷ ("is_admin", flag is_admin)
      ∷ ("iat", num now)
      ∷ ("exp", num (now + 86400))
      ∷ []

  -- Signed for 24 hours; `none` is an error of signing.
  unfoldable pub issue_jwt : ℕ → String → Bool → String → Option String
  issue_jwt now user_id is_admin key = l.sign (session_claims now user_id is_admin) key

pub record GoogleClaims : Type 0 where
  pub sub : String
  pub email : String
  pub display_name : String
  pub picture : String

-- `fetchRSAKey` after the fetch: the first key with the `kid`.
unfoldable pub find_key : String → List JwkKey → Option RsaKey
unfolding jwk_to_rsa
find_key kid [] = none
find_key kid (k ∷ keys) = if str_eq k.kid kid then jwk_to_rsa k else find_key kid keys

abbrev pub rsa_only : RsaKey → Method → Option Key
rsa_only key rsa = some (public key)
rsa_only key _ = none

unfoldable pub has_text : String → List (Option String) → Bool
has_text s [] = false
has_text s (none ∷ l) = has_text s l
has_text s (some t ∷ l) = str_eq t s || has_text s l

-- The `switch` on `aud`.
unfoldable pub audience_matches : String → Option Claim → Bool
unfolding has_text
audience_matches client_id (some (text v)) = str_eq v client_id
audience_matches client_id (some (array v)) = has_text client_id v
audience_matches client_id _ = false

unfoldable pub issuer_ok : MapClaims → Bool
unfolding claim
issuer_ok mc =
    str_eq (as_text (claim "iss" mc)) "accounts.google.com"
    || str_eq (as_text (claim "iss" mc)) "https://accounts.google.com"

unfoldable pub audience_ok : String → MapClaims → Bool
unfolding audience_matches claim
audience_ok client_id mc = str_eq client_id "" || audience_matches client_id (claim "aud" mc)

unfoldable pub google_claims : MapClaims → GoogleClaims
unfolding claim
google_claims mc = record {
  sub = as_text (claim "sub" mc);
  email = as_text (claim "email" mc);
  display_name = as_text (claim "name" mc);
  picture = as_text (claim "picture" mc);
}

-- What is checked of the claims of a token whose signature and date are valid.
unfoldable pub check_google : String → MapClaims → Option GoogleClaims
check_google client_id mc =
    if issuer_ok mc && audience_ok client_id mc then some (google_claims mc) else none

infixl 5 ◌>>=◌
abbrev pub ◌>>=◌ {ℓ κ} : {A : Type ℓ} {B : Type κ} → Option A → (A → Option B) → Option B
none >>= f = none
some a >>= f = f a

-- `VerifyGoogleIDToken`; `none` is ErrUnauthenticated. `fetch` is the key set of a URL, if it can be
-- fetched and parsed.
module _ (l : Library) (fetch : String → Option (List JwkKey)) where
  unfoldable pub verify_google_id_token : ℕ → String → String → String → Option GoogleClaims
  unfolding find_key check_google
  verify_google_id_token now raw_token jwks_url client_id = do
    kid ← l.header_kid raw_token
    keys ← fetch jwks_url
    key ← find_key kid keys
    mc ← l.parse (rsa_only key) now raw_token
    check_google client_id mc
