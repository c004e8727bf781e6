-- ===== src/Backend/Jwk/Alphabet.antt =====
-- The letters of base64url, by their code points, and what `DecodeString` in internal/auth/auth.go
-- reads of them.
use sample_grpc_service.Prelude.{
  ℕ, zero, suc, ◌+◌, ◌-◌, ◌<◌, ◌≡◌, refl, ap, ◌∙◌, String, Bool, true, false, not, ◌&&◌, ◌||◌,
  Option, none, some, List, [], ◌∷◌, map, ◌==◌, ltb, arith, All, inl, inr, Bool-cases,
  if◌then◌else◌,
}
use sample_grpc_service.Backend.Jwk.{alphabet, place, push, sextets}
use Prim.Native.Char.{Char, code}

-- The code points of a text.
unfoldable pub codes : String → List ℕ
codes String.[] = []
codes (String.◌∷◌ c s) = code c ∷ codes s

-- The code point that stands for six bits in base64url, as RFC 4648 has it: the capital letters,
-- the small ones, the digits, "-" and "_".
unfoldable pub url_code : ℕ → ℕ
url_code v =
    if ltb v 26
    then 65 + v
    else if ltb v 52
    then 71 + v
    else if ltb v 62
    then v - 4
    else if v == 62
    then 45
    else 95

-- The place of a code point.
place_at : ℕ → ℕ → String → Option ℕ
place_at i k String.[] = none
place_at i k (String.◌∷◌ d s) =
    let rest = place_at (suc i) k s in if k == code d then some i else rest

place-place_at : (i : ℕ) (c : Char) (s : String) → place i c s ≡ place_at i (code c) s
unfolding place place_at
place-place_at i c String.[] = refl
place-place_at i c (String.◌∷◌ d s) = rw (place-place_at (suc i) c s)

abbrev is_value : ℕ → Option ℕ → Bool
is_value v none = false
is_value v (some u) = u == v

-- The letter of a value is at its place, and is no line end.
fits : ℕ → Bool
unfolding place_at
fits v = is_value v (place_at 0 (url_code v) alphabet) && not (url_code v == 10 || url_code v == 13)

all_fit : ℕ → Bool
all_fit zero = true
all_fit (suc n) = fits n && all_fit n

all_64_fit : all_fit 64 ≡ true
unfolding all_fit fits place_at url_code
all_64_fit = refl

value_same : (v : ℕ) (o : Option ℕ) → is_value v o ≡ true → o ≡ some v
value_same v none h = absurd (cc h)
value_same v (some u) h = let e : u ≡ v = ground (arith, h) in ap some e

and_both : (a b : Bool) → (a && b) ≡ true → (a ≡ true) × (b ≡ true)
and_both true b h = (refl, h)
and_both false b h = absurd (cc h)

is_false : (b : Bool) → not b ≡ true → b ≡ false
is_false true h = absurd (cc h)
is_false false h = refl

all_fit-fits : (n v : ℕ) → all_fit n ≡ true → v < n → fits v ≡ true
unfolding all_fit
all_fit-fits zero v h lt = absurd (omega arith)
all_fit-fits (suc n) v h lt =
    let (this, others) = and_both (fits n) (all_fit n) h in
    elim (Bool-cases (v == n)) [
      | inl same ↦ let e : v ≡ n = ground (arith, same) in rw e this
      | inr other ↦ all_fit-fits n v others (ground (arith, other, lt))
    ]

-- A character with the code of a value is read as the value.
place-url_code :
    (c : Char) (v : ℕ)
    → code c ≡ url_code v
    → v < 64
    → (place 0 c alphabet ≡ some v) × ((code c == 10 || code c == 13) ≡ false)
unfolding fits
place-url_code c v e lt =
    let (here, plain) = and_both _ _ (all_fit-fits 64 v all_64_fit lt) in
    (
      place-place_at 0 c alphabet ∙ rw e (value_same v (place_at 0 (url_code v) alphabet) here),
      rw e (is_false _ plain),
    )

-- A text with the codes of some values is read as the values.
pub sextets-codes :
    (s : String) (l : List ℕ) → codes s ≡ map url_code l → All (λ v. v < 64) l → sextets s ≡ some l
unfolding sextets codes push
sextets-codes String.[] [] e h = refl
sextets-codes String.[] (v ∷ l) e h = absurd (cc e)
sextets-codes (String.◌∷◌ c s) [] e h = absurd (cc e)
sextets-codes (String.◌∷◌ c s) (v ∷ l) e (lt, h) =
    let same : code c ≡ url_code v = cc e in
    let others : codes s ≡ map url_code l = cc e in
    let (there, plain) = place-url_code c v same lt in
    rw plain (rw there (rw (sextets-codes s l others h)))
