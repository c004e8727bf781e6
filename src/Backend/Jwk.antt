-- ===== src/Backend/Jwk.antt =====
-- `jwkToRSA` of internal/auth/auth.go, with what it uses of encoding/base64 and math/big.
pub mod Alphabet
pub mod Decoding
use sample_grpc_service.Prelude.{
  ℕ, zero, suc, ◌+◌, ◌*◌, ◌/◌, ◌%◌, ◌^◌, String, Bool, true, false, ◌||◌, Option, none, some, List,
  [], ◌∷◌, ◌==◌, if◌then◌else◌,
}
use Prim.Native.Char.{Char, code}
use Prim.Native.String

pub record JwkKey : Type 0 where
  pub kid : String
  pub kty : String
  pub alg : String
  pub n : String
  pub e : String

-- `rsa.PublicKey`; the exponent is the 64 bits of its int.
pub record RsaKey : Type 0 where
  pub n : ℕ
  pub e : ℕ

-- The alphabet of `base64.RawURLEncoding`.
abbrev pub alphabet : String
alphabet = "ABCDEFGHIJKLMNOPQRSTUVWXYZabcdefghijklmnopqrstuvwxyz0123456789-_"

-- The place of a character, counted on from `i`.
unfoldable pub place : ℕ → Char → String → Option ℕ
place i c String.[] = none
place i c (String.◌∷◌ d s) =
    let rest = place (suc i) c s in if code c == code d then some i else rest

unfoldable pub push : Option ℕ → Option (List ℕ) → Option (List ℕ)
push (some v) (some l) = some (v ∷ l)
push _ _ = none

-- The values of the characters; line ends are left out.
unfoldable pub sextets : String → Option (List ℕ)
unfolding place push
sextets String.[] = some []
sextets (String.◌∷◌ c s) =
    let rest = sextets s in
    if code c == 10 || code c == 13 then rest else push (place 0 c alphabet) rest

-- Four characters are three bytes; two and three at the end are one and two, with the rest of their
-- bits left out, and one is an error.
unfoldable pub bytes_of : List ℕ → Option (List ℕ)
unfolding push
bytes_of [] = some []
bytes_of (a ∷ []) = none
bytes_of (a ∷ b ∷ []) = some ((a * 4 + b / 16) ∷ [])
bytes_of (a ∷ b ∷ c ∷ []) = some ((a * 4 + b / 16) ∷ (b % 16 * 16 + c / 4) ∷ [])
bytes_of (a ∷ b ∷ c ∷ d ∷ l) =
    push (some (a * 4 + b / 16))
      (push (some (b % 16 * 16 + c / 4)) (push (some (c % 4 * 64 + d)) (bytes_of l)))

infixl 5 ◌>>=◌
abbrev ◌>>=◌ {ℓ κ} : {A : Type ℓ} {B : Type κ} → Option A → (A → Option B) → Option B
none >>= f = none
some a >>= f = f a

-- `DecodeString`
unfoldable pub decode_string : String → Option (List ℕ)
unfolding sextets bytes_of
decode_string s = do l ← sextets s; bytes_of l

-- `SetBytes`, on from a value
unfoldable pub set_bytes : ℕ → List ℕ → ℕ
set_bytes acc [] = acc
set_bytes acc (b ∷ l) = set_bytes (acc * 256 + b) l

unfoldable pub jwk_to_rsa : JwkKey → Option RsaKey
unfolding decode_string set_bytes
jwk_to_rsa k = do
  n_bytes ← decode_string k.n
  e_bytes ← decode_string k.e
  some (record { n = set_bytes 0 n_bytes; e = set_bytes 0 e_bytes % 2 ^ 64 })
