-- ===== src/Backend/Tokens/Google.antt =====
-- The checks of a Google ID token in internal/auth/auth.go.
use sample_grpc_service.Prelude.{
  ℕ, ◌<◌, ◌≡◌, ◌≢◌, inl, inr, refl, ap, ◌∙◌, subst, String, true, false, Option, none, some, List,
  [], ◌∷◌, ◌++◌, arith, str_eq, eq_iff, Bool-cases, All,
}
use sample_grpc_service.Backend.Jwk.{JwkKey, RsaKey, jwk_to_rsa}
use sample_grpc_service.Backend.Tokens.{
  Claim, text, flag, num, array, other, Method, hmac, rsa, unknown, Key, public, has_text,
  audience_matches, Library, LibraryLaws, MapClaims, claim, as_text, rsa_only, find_key, issuer_ok,
  audience_ok, google_claims, check_google, verify_google_id_token, GoogleClaims, ◌>>=◌,
}

-- The key of the first entry with the kid.
pub record KeyFor (kid : String) (keys : List JwkKey) (key : RsaKey) : Type 0 where
  pub before : List JwkKey
  pub entry : JwkKey
  pub after : List JwkKey
  pub parts : keys ≡ before ++ (entry ∷ after)
  pub others : All (λ j. j.kid ≢ kid) before
  pub matches : entry.kid ≡ kid
  pub decoded : jwk_to_rsa entry ≡ some key

-- The `aud` of a token names the client, alone or among others, or no client is configured.
pub data AddressedTo (client_id : String) (mc : MapClaims) : Type 0 where
  no_client : client_id ≡ "" → AddressedTo client_id mc
  alone : claim "aud" mc ≡ some (text client_id) → AddressedTo client_id mc
  among :
      (before after : List (Option String))
      → claim "aud" mc ≡ some (array (before ++ (some client_id ∷ after)))
      → AddressedTo client_id mc

-- A claim that is a text, or the empty text where there is none.
pub data TextClaim (mc : MapClaims) (k s : String) : Type 0 where
  there : claim k mc ≡ some (text s) → TextClaim mc k s
  missing : ((t : String) → claim k mc ≢ some (text t)) → s ≡ "" → TextClaim mc k s

pub record ClaimsOf (mc : MapClaims) (g : GoogleClaims) : Type 0 where
  pub sub : TextClaim mc "sub" g.sub
  pub email : TextClaim mc "email" g.email
  pub display_name : TextClaim mc "name" g.display_name
  pub picture : TextClaim mc "picture" g.picture

-- A key function that gives a key to the RSA methods alone.
pub record RsaOnly (key : RsaKey) (keys : Method → Option Key) : Type 0 where
  pub for_rsa : keys rsa ≡ some (public key)
  pub for_hmac : keys hmac ≡ none
  pub for_unknown : keys unknown ≡ none

find_key-KeyFor :
    (kid : String) (keys : List JwkKey) (key : RsaKey)
    → find_key kid keys ≡ some key
    → KeyFor kid keys key
unfolding find_key
find_key-KeyFor kid [] key h = absurd (cc h)
find_key-KeyFor kid (k ∷ keys) key h = elim (Bool-cases (str_eq k.kid kid)) [
  | inl same ↦ record {
    before = [];
    entry = k;
    after = keys;
    parts = refl;
    others = tt;
    matches = (eq_iff k.kid kid).0 same;
    decoded = rw same at h;
  }
  | inr differs ↦
      let rest = find_key-KeyFor kid keys key (rw differs at h) in
      record {
        before = k ∷ rest.before;
        entry = rest.entry;
        after = rest.after;
        parts = ap (λ l. k ∷ l) rest.parts;
        others = (λ e. cc ((eq_iff k.kid kid).1 e, differs), rest.others);
        matches = rest.matches;
        decoded = rest.decoded;
      }
]

has_text-split :
    (s : String) (l : List (Option String))
    → has_text s l ≡ true
    → (before : List (Option String)) × (after : List (Option String)) × (l
        ≡ before ++ (some s ∷ after))
unfolding has_text
has_text-split s [] h = absurd (cc h)
has_text-split s (none ∷ l) h =
    let (before, after, e) = has_text-split s l h in (none ∷ before, after, ap (λ k. none ∷ k) e)
has_text-split s (some t ∷ l) h = elim (Bool-cases (str_eq t s)) [
  | inl same ↦ ([], l, ap (λ u. some u ∷ l) ((eq_iff t s).0 same))
  | inr differs ↦
      let (before, after, e) = has_text-split s l (rw differs at h) in
      (some t ∷ before, after, ap (λ k. some t ∷ k) e)
]

matches-AddressedTo :
    (client_id : String) (mc : MapClaims) (o : Option Claim)
    → claim "aud" mc ≡ o
    → audience_matches client_id o ≡ true
    → AddressedTo client_id mc
unfolding audience_matches
matches-AddressedTo client_id mc (some (text v)) e h =
    alone (e ∙ ap (λ s. some (text s)) ((eq_iff v client_id).0 h))
matches-AddressedTo client_id mc (some (array v)) e h =
    let (before, after, parts) = has_text-split client_id v h in
    among before after (e ∙ ap (λ l. some (array l)) parts)
matches-AddressedTo client_id mc (some (flag b)) e h = absurd (cc h)
matches-AddressedTo client_id mc (some (num n)) e h = absurd (cc h)
matches-AddressedTo client_id mc (some other) e h = absurd (cc h)
matches-AddressedTo client_id mc none e h = absurd (cc h)

audience_ok-AddressedTo :
    (client_id : String) (mc : MapClaims)
    → audience_ok client_id mc ≡ true
    → AddressedTo client_id mc
unfolding audience_ok
audience_ok-AddressedTo client_id mc h = elim (Bool-cases (str_eq client_id "")) [
  | inl empty ↦ no_client ((eq_iff client_id "").0 empty)
  | inr full ↦ matches-AddressedTo client_id mc (claim "aud" mc) refl (rw full at h)
]

as_text-TextClaim :
    (mc : MapClaims) (k : String) (o : Option Claim) → claim k mc ≡ o → TextClaim mc k (as_text o)
as_text-TextClaim mc k (some (text s)) e = there e
as_text-TextClaim mc k (some (flag b)) e = missing (λ t h. cc (e, h)) refl
as_text-TextClaim mc k (some (num n)) e = missing (λ t h. cc (e, h)) refl
as_text-TextClaim mc k (some (array l)) e = missing (λ t h. cc (e, h)) refl
as_text-TextClaim mc k (some other) e = missing (λ t h. cc (e, h)) refl
as_text-TextClaim mc k none e = missing (λ t h. cc (e, h)) refl

google_claims-ClaimsOf : (mc : MapClaims) → ClaimsOf mc (google_claims mc)
unfolding google_claims
google_claims-ClaimsOf mc = record {
  sub = as_text-TextClaim mc "sub" (claim "sub" mc) refl;
  email = as_text-TextClaim mc "email" (claim "email" mc) refl;
  display_name = as_text-TextClaim mc "name" (claim "name" mc) refl;
  picture = as_text-TextClaim mc "picture" (claim "picture" mc) refl;
}

-- The two issuers of Google.
pub data FromGoogle (mc : MapClaims) : Type 0 where
  short : claim "iss" mc ≡ some (text "accounts.google.com") → FromGoogle mc
  long : claim "iss" mc ≡ some (text "https://accounts.google.com") → FromGoogle mc

text_there :
    (o : Option Claim) (s : String)
    → str_eq (as_text o) s ≡ true
    → str_eq "" s ≡ false
    → o ≡ some (text s)
text_there (some (text t)) s h full = ap (λ u. some (text u)) ((eq_iff t s).0 h)
text_there (some (flag b)) s h full = absurd (cc (h, full))
text_there (some (num n)) s h full = absurd (cc (h, full))
text_there (some (array l)) s h full = absurd (cc (h, full))
text_there (some other) s h full = absurd (cc (h, full))
text_there none s h full = absurd (cc (h, full))

issuer_ok-FromGoogle : (mc : MapClaims) → issuer_ok mc ≡ true → FromGoogle mc
unfolding issuer_ok
issuer_ok-FromGoogle mc h =
    elim (Bool-cases (str_eq (as_text (claim "iss" mc)) "accounts.google.com")) [
      | inl is_short ↦ short (text_there (claim "iss" mc) "accounts.google.com" is_short refl)
      | inr is_other ↦
          long (text_there (claim "iss" mc) "https://accounts.google.com" (rw is_other at h) refl)
    ]

check_google_sound :
    (client_id : String) (mc : MapClaims) (g : GoogleClaims)
    → check_google client_id mc ≡ some g
    → (issuer_ok mc ≡ true) × (audience_ok client_id mc ≡ true) × (google_claims mc ≡ g)
unfolding check_google
check_google_sound client_id mc g h = ground arith

bind_some :
    {A B : Type 0} (o : Option A) (f : A → Option B) (b : B)
    → (o >>= f) ≡ some b
    → (a : A) × (o ≡ some a) × (f a ≡ some b)
bind_some none f b h = absurd (cc h)
bind_some (some a) f b h = (a, refl, h)

module _ (l : Library) (laws : LibraryLaws l) (fetch : String → Option (List JwkKey)) where
  -- A Google ID token that verifies: the first entry of the fetched key set with the kid of its
  -- header holds a key, and the library takes the token with that key for the RSA methods and none
  -- for the others; its expiry lies ahead; its `iss` is one of the two of Google; its `aud` is the
  -- id of the client or an array with it, unless no client is configured; and the four claims
  -- returned are the texts of its own, or empty where it has no such text.
  pub verify_google_sound :
      (now : ℕ) (raw_token jwks_url client_id : String) (g : GoogleClaims)
      → verify_google_id_token l fetch now raw_token jwks_url client_id ≡ some g
      → (keys : List JwkKey) × (kid : String) × (key : RsaKey) × (by_method : Method → Option Key)
        × (mc : MapClaims) × (exp : ℕ) × (fetch jwks_url ≡ some keys)
        × (l.header_kid raw_token ≡ some kid)
        × KeyFor kid keys key
        × RsaOnly key by_method
        × (l.parse by_method now raw_token ≡ some mc)
        × (l.expiry mc ≡ some exp)
        × (now < exp)
        × FromGoogle mc
        × AddressedTo client_id mc
        × ClaimsOf mc g
  unfolding verify_google_id_token
  verify_google_sound now raw_token jwks_url client_id g h =
      let (kid, has_kid, h₁) = bind_some (l.header_kid raw_token) _ g h in
      let (keys, fetched, h₂) = bind_some (fetch jwks_url) _ g h₁ in
      let (key, found, h₃) = bind_some (find_key kid keys) _ g h₂ in
      let (mc, parsed, h₄) = bind_some (l.parse (rsa_only key) now raw_token) _ g h₃ in
      let (issued, aimed, same) = check_google_sound client_id mc g h₄ in
      let (exp, dated, ahead) = laws.parse_expiry (rsa_only key) now raw_token mc parsed in
      (
        keys,
        kid,
        key,
        rsa_only key,
        mc,
        exp,
        fetched,
        has_kid,
        find_key-KeyFor kid keys key found,
        record { for_rsa = refl; for_hmac = refl; for_unknown = refl },
        parsed,
        dated,
        ahead,
        issuer_ok-FromGoogle mc issued,
        audience_ok-AddressedTo client_id mc aimed,
        subst (ClaimsOf mc) same (google_claims-ClaimsOf mc),
      )
