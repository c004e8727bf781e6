-- ===== src/Backend/Usernames/Pattern.antt =====
-- The pattern `^[a-zA-Z0-9_]{3,30}$` of internal/auth/service.go, read as a set of texts.
use sample_grpc_service.Prelude.{
  ℕ, ◌≤◌, ◌≡◌, refl, inl, inr, String, true, ◌&&◌, arith, leb, Bool-cases,
}
use sample_grpc_service.Backend.Usernames.{is_word, all_word, size, username_re}
use Prim.Native.Char.{Char, code}
use Prim.Native.String
use text.Mathlib.TextLemmas.{length-nil, length-cons}

-- A letter of ASCII, a digit or an underscore, by its code.
pub data IsWord (k : ℕ) : Type 0 where
  lower : 97 ≤ k → k ≤ 122 → IsWord k
  upper : 65 ≤ k → k ≤ 90 → IsWord k
  digit : 48 ≤ k → k ≤ 57 → IsWord k
  underscore : k ≡ 95 → IsWord k

abbrev pub AllWord : String → Type 0
AllWord String.[] = Unit
AllWord (String.◌∷◌ c s) = IsWord (code c) × AllWord s

pub record IsUsername (s : String) : Type 0 where
  pub at_least : 3 ≤ String.count s
  pub at_most : String.count s ≤ 30
  pub words : AllWord s

size-count : (s : String) → size s ≡ String.count s
unfolding size
size-count String.[] = length-nil
size-count (String.◌∷◌ c s) = rw (length-cons c s) (omega (arith, size-count s))

is_word-IsWord : (c : Char) → is_word c ≡ true → IsWord (code c)
unfolding is_word
is_word-IsWord c h = elim (Bool-cases (leb b'a' (code c) && leb (code c) b'z')) [
  | inl a ↦ lower (ground (arith, a)) (ground (arith, a))
  | inr a ↦ elim (Bool-cases (leb b'A' (code c) && leb (code c) b'Z')) [
    | inl b ↦ upper (ground (arith, b)) (ground (arith, b))
    | inr b ↦ elim (Bool-cases (leb b'0' (code c) && leb (code c) b'9')) [
      | inl d ↦ digit (ground (arith, d)) (ground (arith, d))
      | inr d ↦ underscore (ground (arith, h, a, b, d))
    ]
  ]
]

IsWord-is_word : (c : Char) → IsWord (code c) → is_word c ≡ true
unfolding is_word
IsWord-is_word c (lower lo hi) = ground arith
IsWord-is_word c (upper lo hi) = ground arith
IsWord-is_word c (digit lo hi) = ground arith
IsWord-is_word c (underscore e) = ground arith

all_word-AllWord : (s : String) → all_word s ≡ true → AllWord s
unfolding all_word
all_word-AllWord String.[] h = tt
all_word-AllWord (String.◌∷◌ c s) h =
    (is_word-IsWord c (ground (arith, h)), all_word-AllWord s (ground (arith, h)))

AllWord-all_word : (s : String) → AllWord s → all_word s ≡ true
unfolding all_word
AllWord-all_word String.[] h = refl
AllWord-all_word (String.◌∷◌ c s) (h, hs) = rw (IsWord-is_word c h) (AllWord-all_word s hs)

pub username_re-IsUsername : (s : String) → username_re s ≡ true → IsUsername s
unfolding username_re
username_re-IsUsername s h =
    let n = size-count s in
    record {
      at_least = ground (arith, h, n);
      at_most = ground (arith, h, n);
      words = all_word-AllWord s (ground (arith, h));
    }

pub IsUsername-username_re : (s : String) → IsUsername s → username_re s ≡ true
unfolding username_re
IsUsername-username_re s u =
    let n = size-count s in
    let words = AllWord-all_word s u.words in
    let lo = u.at_least in let hi = u.at_most in ground (arith, n, words, lo, hi)
