-- ===== src/Backend/Usernames/Valid.antt =====
-- The sizes and the characters of the usernames of internal/auth/usernames.go.
use sample_grpc_service.Prelude.{
  ℕ, zero, suc, ◌+◌, ◌≤◌, ◌<◌, ◌≡◌, refl, String, Bool, true, false, ◌&&◌, some, List, [], ◌∷◌, leb,
  ◌==◌, arith, get_elem?, length, inl, inr, Bool-cases,
}
use sample_grpc_service.Decimal.{decimal}
use sample_grpc_service.Backend.Usernames.{
  adjectives, nouns, generate_username, all_word, size, username_re,
}
use Prim.Native.String
use text.Mathlib.TextLemmas.{nil-append, cons-append}

and_assoc : (a b c : Bool) → (a && b && c) ≡ ((a && b) && c)
and_assoc true b c = refl
and_assoc false b c = refl

all_word-append :
    (s t : String) → all_word s ≡ true → all_word t ≡ true → all_word (String.◌++◌ s t) ≡ true
unfolding all_word
all_word-append String.[] t h k = rw (nil-append t) k
all_word-append (String.◌∷◌ c s) t h k =
    rw (cons-append c s t) (ground (arith, all_word-append s t, h, k))

size-append : (s t : String) → size (String.◌++◌ s t) ≡ size s + size t
unfolding size
size-append String.[] t = rw (nil-append t) (omega arith)
size-append (String.◌∷◌ c s) t = rw (cons-append c s t) (omega (arith, size-append s t))

-- A word of a bounded size.
abbrev is_part : ℕ → ℕ → String → Bool
is_part lo hi s = all_word s && leb lo (size s) && leb (size s) hi

all_parts : ℕ → ℕ → List String → Bool
all_parts lo hi [] = true
all_parts lo hi (s ∷ l) = is_part lo hi s && all_parts lo hi l

all_parts-get_elem? :
    (lo hi : ℕ) (l : List String) (i : ℕ)
    → all_parts lo hi l ≡ true
    → i < length l
    → (s : String) × (get_elem? l i ≡ some s) × (all_word s ≡ true) × (lo ≤ size s) × (size s ≤ hi)
unfolding all_parts
all_parts-get_elem? lo hi [] i h lt = absurd (omega arith)
all_parts-get_elem? lo hi (s ∷ l) zero h lt =
    (s, refl, ground (arith, h), ground (arith, h), ground (arith, h))
all_parts-get_elem? lo hi (s ∷ l) (suc i) h lt =
    all_parts-get_elem? lo hi l i (ground (arith, h)) (omega arith)

adjectives_fit : all_parts 3 10 adjectives ≡ true
unfolding all_parts adjectives all_word size
adjectives_fit = refl

nouns_fit : all_parts 3 8 nouns ≡ true
unfolding all_parts nouns all_word size
nouns_fit = refl

numbers_fit : ℕ → Bool
numbers_fit zero = true
numbers_fit (suc n) = is_part 2 3 (decimal (n + 10)) && numbers_fit n

numbers_fit_all : numbers_fit 990 ≡ true
unfolding numbers_fit decimal all_word size
numbers_fit_all = refl

number_fits :
    (n k : ℕ)
    → numbers_fit n ≡ true
    → k < n
    → (all_word (decimal (k + 10)) ≡ true)
      × (2 ≤ size (decimal (k + 10)))
      × (size (decimal (k + 10)) ≤ 3)
unfolding numbers_fit
number_fits zero k h lt = absurd (omega arith)
number_fits (suc n) k h lt = elim (Bool-cases (k == n)) [
  | inl same ↦
      let e : k ≡ n = ground (arith, same) in
      rw e (ground (arith, h), ground (arith, h), ground (arith, h))
  | inr other ↦ number_fits n k (ground (arith, h)) (ground (arith, other, lt))
]

-- For each value that the three random numbers can take, `GenerateUsername` gives a username, of 8
-- to 21 characters, and it matches the pattern that `UpdateProfile` asks of a chosen name.
pub generate_username-valid :
    (i j k : ℕ)
    → i < length adjectives
    → j < length nouns
    → k < 990
    → (s : String) × (generate_username i j k ≡ some s)
      × (8 ≤ size s)
      × (size s ≤ 21)
      × (username_re s ≡ true)
unfolding generate_username username_re
generate_username-valid i j k hi hj hk =
    let (a, ea, wa, la, ma) = all_parts-get_elem? 3 10 adjectives i adjectives_fit hi in
    let (b, eb, wb, lb, mb) = all_parts-get_elem? 3 8 nouns j nouns_fit hj in
    let (wn, ln, mn) = number_fits 990 k numbers_fit_all hk in
    let n = decimal (k + 10) in
    let word = all_word-append a (String.◌++◌ b n) wa (all_word-append b n wb wn) in
    let outer = size-append a (String.◌++◌ b n) in
    let inner = size-append b n in
    (
      String.◌++◌ a (String.◌++◌ b n),
      rw (ea, eb),
      omega (arith, outer, inner),
      omega (arith, outer, inner),
      ground (arith, word, outer, inner, la, ma, lb, mb, ln, mn),
    )
