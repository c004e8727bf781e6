-- ===== src/Decimal.antt =====
-- A number in a template text or under `%d`.
use sample_grpc_service.Prelude.{
  ℕ, zero, suc, ◌/◌, ◌%◌, String, true, false, ltb, ◌==◌, if◌then◌else◌,
}
use Prim.Native.String

unfoldable pub digit : ℕ → String
digit n =
    if n == 0
    then "0"
    else if n == 1
    then "1"
    else if n == 2
    then "2"
    else if n == 3
    then "3"
    else if n == 4
    then "4"
    else if n == 5
    then "5"
    else if n == 6
    then "6"
    else if n == 7
    then "7"
    else if n == 8
    then "8"
    else "9"

-- A number has no more digits than its value and one.
unfoldable pub decimal_from : ℕ → ℕ → String
unfolding digit
decimal_from zero n = ""
decimal_from (suc fuel) n = elim (ltb n 10) [
  | true ↦ digit n
  | false ↦ String.◌++◌ (decimal_from fuel (n / 10)) (digit (n % 10))
]

unfoldable pub decimal : ℕ → String
unfolding decimal_from
decimal n = decimal_from (suc n) n
