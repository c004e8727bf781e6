-- ===== src/Tests/SampleLibrary.antt =====
-- A token library whose tokens are the user's id behind a letter for the admin flag, for one secret
-- and for claims of one day from time 0; one more token stands for Google's.
use sample_grpc_service.Prelude.{
  ℕ, ◌<◌, ◌≡◌, refl, subst, inl, inr, String, Bool, true, false, ◌&&◌, Option, none, some, [], ◌∷◌,
  str_eq, eq_iff, ltb, lt→ltb, ◌==◌, arith, if◌then◌else◌, Bool-cases,
}
use sample_grpc_service.Backend.Tokens.{
  Library, LibraryLaws, MapClaims, Claim, text, flag, num, claim, Method, hmac, rsa, Key, secret,
  public,
}
use Prim.Native.Char.{code}

abbrev pub sample_secret : String
sample_secret = "secret"

abbrev day_claims : String → Bool → MapClaims
day_claims user_id is_admin =
    ("user_id", text user_id)
    ∷ ("is_admin", flag is_admin)
    ∷ ("iat", num 0)
    ∷ ("exp", num 86400)
    ∷ []

letter : Bool → String → String
letter true s = String.◌∷◌ "A" s
letter false s = String.◌∷◌ "B" s

are_day_claims : String → String → String → String → ℕ → ℕ → String → Bool
are_day_claims a b c d i e key =
    str_eq a "user_id"
    && (str_eq b "is_admin"
        && (str_eq c "iat"
            && (str_eq d "exp" && (i == 0 && (e == 86400 && str_eq key sample_secret)))))

sign : MapClaims → String → Option String
unfolding letter are_day_claims
sign ((a, text s) ∷ (b, flag f) ∷ (c, num i) ∷ (d, num e) ∷ []) key =
    if are_day_claims a b c d i e key then some (letter f s) else none
sign _ key = none

abbrev pub google_token : String
google_token = "google"

abbrev pub google_map : MapClaims
google_map =
    ("iss", text "accounts.google.com")
    ∷ ("aud", text "client")
    ∷ ("sub", text "42")
    ∷ ("email", text "a@b.c")
    ∷ ("name", text "Ann")
    ∷ ("exp", num 1000)
    ∷ []

by_secret : Option Key → MapClaims → Option MapClaims
by_secret (some (secret k)) mc = if str_eq k sample_secret then some mc else none
by_secret _ mc = none

by_public : Option Key → MapClaims → Option MapClaims
by_public (some (public k)) mc = some mc
by_public _ mc = none

parse : (Method → Option Key) → ℕ → String → Option MapClaims
unfolding by_secret by_public
parse keys now String.[] = none
parse keys now (String.◌∷◌ c s) =
    if code c == b'A' && ltb now 86400
    then by_secret (keys hmac) (day_claims s true)
    else if code c == b'B' && ltb now 86400
    then by_secret (keys hmac) (day_claims s false)
    else if code c == b'g' && ltb now 1000
    then by_public (keys rsa) google_map
    else none

exp_of : Option Claim → Option ℕ
exp_of (some (num n)) = some n
exp_of _ = none

unfoldable pub sample_library : Library
unfolding sign parse exp_of claim
sample_library = record {
  sign = sign;
  parse = parse;
  header_kid = λ token. some "key-1";
  expiry = λ mc. exp_of (claim "exp" mc);
}

sign_day :
    (mc : MapClaims) (key token : String)
    → sign mc key ≡ some token
    → (s : String) × (f : Bool) × (mc ≡ day_claims s f)
      × (key ≡ sample_secret)
      × (token ≡ letter f s)
unfolding sign are_day_claims
sign_day ((a, text s) ∷ (b, flag f) ∷ (c, num i) ∷ (d, num e) ∷ []) key token h =
    elim (Bool-cases (are_day_claims a b c d i e key)) [
      | inl good ↦
          let ea : a ≡ "user_id" = (eq_iff a "user_id").0 (ground (arith, good)) in
          let eb : b ≡ "is_admin" = (eq_iff b "is_admin").0 (ground (arith, good)) in
          let ec : c ≡ "iat" = (eq_iff c "iat").0 (ground (arith, good)) in
          let ed : d ≡ "exp" = (eq_iff d "exp").0 (ground (arith, good)) in
          let ei : i ≡ 0 = ground (arith, good) in
          let ee : e ≡ 86400 = ground (arith, good) in
          let ek : key ≡ sample_secret = (eq_iff key sample_secret).0 (ground (arith, good)) in
          (s, f, rw (ea, eb, ec, ed, ei, ee), ek, cc (rw good at h))
      | inr bad ↦ absurd (cc (rw bad at h))
    ]
sign_day _ key token h = absurd (cc h)

letter_not_empty : (f : Bool) (s : String) → letter f s ≡ "" → ⊥
unfolding letter
letter_not_empty true s h = cc h
letter_not_empty false s h = cc h

letter_full : (f : Bool) (s : String) → str_eq (letter f s) "" ≡ false
unfolding letter
letter_full f s = elim (Bool-cases (str_eq (letter f s) "")) [
  | inl empty ↦ absurd (letter_not_empty f s ((eq_iff (letter f s) "").0 empty))
  | inr full ↦ full
]

parse-letter :
    (keys : Method → Option Key) (now : ℕ) (f : Bool) (s : String)
    → now < 86400
    → parse keys now (letter f s) ≡ by_secret (keys hmac) (day_claims s f)
unfolding letter parse
parse-letter keys now true s lt = rw (lt→ltb now 86400 lt)
parse-letter keys now false s lt = rw (lt→ltb now 86400 lt)

by_secret-same : (o : Option Key) (mc mc' : MapClaims) → by_secret o mc ≡ some mc' → mc ≡ mc'
unfolding by_secret
by_secret-same (some (secret k)) mc mc' h = elim (Bool-cases (str_eq k sample_secret)) [
  | inl good ↦ cc (rw good at h)
  | inr bad ↦ absurd (cc (rw bad at h))
]
by_secret-same (some (public k)) mc mc' h = absurd (cc h)
by_secret-same none mc mc' h = absurd (cc h)

by_public-same : (o : Option Key) (mc mc' : MapClaims) → by_public o mc ≡ some mc' → mc ≡ mc'
unfolding by_public
by_public-same (some (public k)) mc mc' h = cc h
by_public-same (some (secret k)) mc mc' h = absurd (cc h)
by_public-same none mc mc' h = absurd (cc h)

-- A date that lies ahead.
abbrev Dated : ℕ → MapClaims → Type 0
Dated now mc = (exp : ℕ) × (exp_of (claim "exp" mc) ≡ some exp) × (now < exp)

parse-Dated :
    (keys : Method → Option Key) (now : ℕ) (token : String) (mc : MapClaims)
    → parse keys now token ≡ some mc
    → Dated now mc
unfolding parse exp_of claim
parse-Dated keys now String.[] mc h = absurd (cc h)
parse-Dated keys now (String.◌∷◌ c s) mc h = elim (Bool-cases (code c == b'A' && ltb now 86400)) [
  | inl a ↦
      let same = by_secret-same (keys hmac) (day_claims s true) mc (rw a at h) in
      subst (Dated now) same (86400, refl, ground (arith, a))
  | inr a ↦ elim (Bool-cases (code c == b'B' && ltb now 86400)) [
    | inl b ↦
        let same = by_secret-same (keys hmac) (day_claims s false) mc (rw (a, b) at h) in
        subst (Dated now) same (86400, refl, ground (arith, b))
    | inr b ↦ elim (Bool-cases (code c == b'g' && ltb now 1000)) [
      | inl g ↦
          let same = by_public-same (keys rsa) google_map mc (rw (a, b, g) at h) in
          subst (Dated now) same (1000, refl, ground (arith, g))
      | inr g ↦ absurd (cc (rw (a, b, g) at h))
    ]
  ]
]

parse_signed :
    (keys : Method → Option Key) (now exp : ℕ) (mc : MapClaims) (key token : String)
    → sign mc key ≡ some token
    → keys hmac ≡ some (secret key)
    → exp_of (claim "exp" mc) ≡ some exp
    → now < exp
    → parse keys now token ≡ some mc
unfolding by_secret claim exp_of
parse_signed keys now exp mc key token signed keyed dated lt =
    let (s, f, em, ek, et) = sign_day mc key token signed in
    let day : exp_of (claim "exp" (day_claims s f)) ≡ some exp =
      subst (λ (m : MapClaims). exp_of (claim "exp" m) ≡ some exp) em dated in
    let late : 86400 ≡ exp = cc day in
    rw (et, parse-letter keys now f s (omega arith), keyed, ek, em)

expiry_lem :
    (mc : MapClaims) (exp : ℕ)
    → claim "exp" mc ≡ some (num exp)
    → exp_of (claim "exp" mc) ≡ some exp
unfolding exp_of
expiry_lem mc exp h = rw h

pub sample_library_laws : LibraryLaws sample_library
unfolding sample_library
sample_library_laws = record {
  parse-sign = λ keys now exp mc key token signed keyed dated lt open_now.
      parse_signed keys now exp mc key token signed keyed dated lt;
  parse_expiry = λ keys now token mc h. parse-Dated keys now token mc h;
  sign_expiry = λ mc exp h. expiry_lem mc exp h;
  sign_not_empty =
      λ mc key token h. let (s, f, em, ek, et) = sign_day mc key token h in rw et (letter_full f s);
}
