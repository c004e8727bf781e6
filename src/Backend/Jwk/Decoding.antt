-- ===== src/Backend/Jwk/Decoding.antt =====
-- The key that `jwkToRSA` in internal/auth/auth.go gives for a modulus and an exponent written in
-- base64url.
use sample_grpc_service.Prelude.{
  ℕ, ◌+◌, ◌*◌, ◌/◌, ◌%◌, ◌^◌, ◌<◌, ◌≡◌, refl, ◌∙◌, suc, String, some, List, [], ◌∷◌, map, length,
  arith, All,
}
use sample_grpc_service.Backend.Jwk.{JwkKey, push, bytes_of, decode_string, set_bytes, jwk_to_rsa}
use sample_grpc_service.Backend.Jwk.Alphabet.{codes, url_code, sextets-codes}
use native.Mathlib.Numerals.{unary_clauses}

-- The number whose digits to the base 256 are the bytes, the most significant first.
unfoldable pub big_endian : List ℕ → ℕ
big_endian [] = 0
big_endian (b ∷ l) = b * 256 ^ length l + big_endian l

place_up : (a b n r : ℕ) → (a * 256 + b) * 256 ^ n + r ≡ a * 256 ^ (suc n) + (b * 256 ^ n + r)
place_up a b n r = simp unary_clauses (omega arith)

set_bytes-big_endian :
    (acc : ℕ) (l : List ℕ) → set_bytes acc l ≡ acc * 256 ^ length l + big_endian l
unfolding set_bytes big_endian
set_bytes-big_endian acc [] = omega arith
set_bytes-big_endian acc (b ∷ l) =
    set_bytes-big_endian (acc * 256 + b) l ∙ place_up acc b (length l) (big_endian l)

set_bytes_lem : (l : List ℕ) → set_bytes 0 l ≡ big_endian l
set_bytes_lem l =
    let same : 0 * 256 ^ length l + big_endian l ≡ big_endian l = omega arith in
    set_bytes-big_endian 0 l ∙ same

-- Three bytes are four values, the rest as many as its bits ask for.
unfoldable pub sextets_of : List ℕ → List ℕ
sextets_of [] = []
sextets_of (x ∷ []) = x / 4 ∷ x % 4 * 16 ∷ []
sextets_of (x ∷ y ∷ []) = x / 4 ∷ (x % 4 * 16 + y / 16) ∷ y % 16 * 4 ∷ []
sextets_of (x ∷ y ∷ z ∷ l) =
    x / 4 ∷ (x % 4 * 16 + y / 16) ∷ (y % 16 * 4 + z / 64) ∷ z % 64 ∷ sextets_of l

abbrev pub IsByte : ℕ → Type 0
IsByte b = b < 256

sextets_of-small : (bs : List ℕ) → All IsByte bs → All (λ v. v < 64) (sextets_of bs)
unfolding sextets_of
sextets_of-small [] h = tt
sextets_of-small (x ∷ []) (hx, h) = (omega arith, (omega arith, tt))
sextets_of-small (x ∷ y ∷ []) (hx, (hy, h)) = (omega arith, (omega arith, (omega arith, tt)))
sextets_of-small (x ∷ y ∷ z ∷ l) (hx, (hy, (hz, h))) =
    (omega arith, (omega arith, (omega arith, (omega arith, sextets_of-small l h))))

bytes_of-sextets_of : (bs : List ℕ) → All IsByte bs → bytes_of (sextets_of bs) ≡ some bs
unfolding bytes_of sextets_of push
bytes_of-sextets_of [] h = refl
bytes_of-sextets_of (x ∷ []) (hx, h) = let e : x / 4 * 4 + x % 4 * 16 / 16 ≡ x = omega arith in rw e
bytes_of-sextets_of (x ∷ y ∷ []) (hx, (hy, h)) =
    let e : x / 4 * 4 + (x % 4 * 16 + y / 16) / 16 ≡ x = omega arith in
    let f : (x % 4 * 16 + y / 16) % 16 * 16 + y % 16 * 4 / 4 ≡ y = omega arith in rw (e, f)
bytes_of-sextets_of (x ∷ y ∷ z ∷ l) (hx, (hy, (hz, h))) =
    let e : x / 4 * 4 + (x % 4 * 16 + y / 16) / 16 ≡ x = omega arith in
    let f : (x % 4 * 16 + y / 16) % 16 * 16 + (y % 16 * 4 + z / 64) / 4 ≡ y = omega arith in
    let g : (y % 16 * 4 + z / 64) % 4 * 64 + z % 64 ≡ z = omega arith in
    rw (bytes_of-sextets_of l h) (rw (e, f, g))

-- `s` is the unpadded base64url of the bytes.
abbrev pub IsUrlText : String → List ℕ → Type 0
IsUrlText s bs = codes s ≡ map url_code (sextets_of bs)

decode_string-IsUrlText :
    (s : String) (bs : List ℕ) → IsUrlText s bs → All IsByte bs → decode_string s ≡ some bs
unfolding decode_string
decode_string-IsUrlText s bs e h =
    rw (sextets-codes s (sextets_of bs) e (sextets_of-small bs h)) (bytes_of-sextets_of bs h)

-- For a key whose two texts are the unpadded base64url (RFC 4648) of the bytes of a modulus and of
-- an exponent, `jwkToRSA` gives the number whose bytes, the most significant first, are the first
-- ones, and the low 64 bits of the number of the second ones.
pub jwk_to_rsa-IsUrlText :
    (ns es : List ℕ) (k : JwkKey)
    → All IsByte ns
    → All IsByte es
    → IsUrlText k.n ns
    → IsUrlText k.e es
    → jwk_to_rsa k ≡ some (record { n = big_endian ns; e = big_endian es % 2 ^ 64 })
unfolding jwk_to_rsa
jwk_to_rsa-IsUrlText ns es k hn he n_text e_text = rw (
  decode_string-IsUrlText k.n ns n_text hn,
  decode_string-IsUrlText k.e es e_text he,
  set_bytes_lem ns,
  set_bytes_lem es,
)
