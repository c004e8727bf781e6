-- ===== src/Frontend/Echo/Trim.antt =====
-- `trim`, and the body of an echo request.
use sample_grpc_service.Prelude.{◌≡◌, inl, inr, refl, ap, ◌∙◌, String, false, Bool-cases}
use sample_grpc_service.Prelude.Outcome.{ok}
use sample_grpc_service.Js.{string_field}
use sample_grpc_service.Greeter.EchoRequest
use sample_grpc_service.Greeter.EchoRequest.{EchoRequest}
use sample_grpc_service.Frontend.Echo.{
  is_space, trim_start, cons_trimmed, trim_end, trim, echo_body,
}
use Prim.Native.Char.{Char}

-- A text that is empty or begins with no space.
abbrev pub StartsClean : String → Type 0
StartsClean String.[] = Unit
StartsClean (String.◌∷◌ c s) = is_space c ≡ false

-- A text that is empty or ends with no space.
abbrev pub EndsClean : String → Type 0
EndsClean String.[] = Unit
EndsClean (String.◌∷◌ c String.[]) = is_space c ≡ false
EndsClean (String.◌∷◌ c (String.◌∷◌ d s)) = EndsClean (String.◌∷◌ d s)

trim_start-StartsClean : (s : String) → StartsClean (trim_start s)
unfolding trim_start
trim_start-StartsClean String.[] = tt
trim_start-StartsClean (String.◌∷◌ c s) = elim (Bool-cases (is_space c)) [
  | inl space ↦ rw space (trim_start-StartsClean s)
  | inr other ↦ rw other other
]

cons_trimmed-StartsClean :
    (c : Char) (t : String) → is_space c ≡ false → StartsClean (cons_trimmed c t)
cons_trimmed-StartsClean c String.[] h = rw h h
cons_trimmed-StartsClean c (String.◌∷◌ d s) h = h

trim_end-StartsClean : (s : String) → StartsClean s → StartsClean (trim_end s)
unfolding trim_end
trim_end-StartsClean String.[] h = tt
trim_end-StartsClean (String.◌∷◌ c s) h = cons_trimmed-StartsClean c (trim_end s) h

cons_trimmed-EndsClean : (c : Char) (t : String) → EndsClean t → EndsClean (cons_trimmed c t)
cons_trimmed-EndsClean c String.[] h = elim (Bool-cases (is_space c)) [
  | inl space ↦ rw space tt
  | inr other ↦ rw other other
]
cons_trimmed-EndsClean c (String.◌∷◌ d s) h = h

trim_end-EndsClean : (s : String) → EndsClean (trim_end s)
unfolding trim_end
trim_end-EndsClean String.[] = tt
trim_end-EndsClean (String.◌∷◌ c s) = cons_trimmed-EndsClean c (trim_end s) (trim_end-EndsClean s)

-- A trimmed text neither begins nor ends with a space.
pub trim_clean : (s : String) → StartsClean (trim s) × EndsClean (trim s)
unfolding trim
trim_clean s = (
  trim_end-StartsClean (trim_start s) (trim_start-StartsClean s),
  trim_end-EndsClean (trim_start s),
)

trim_start_of_clean : (s : String) → StartsClean s → trim_start s ≡ s
unfolding trim_start
trim_start_of_clean String.[] h = refl
trim_start_of_clean (String.◌∷◌ c s) h = rw h

trim_end_of_clean : (s : String) → EndsClean s → trim_end s ≡ s
unfolding trim_end
trim_end_of_clean String.[] h = refl
trim_end_of_clean (String.◌∷◌ c String.[]) h = rw h
trim_end_of_clean (String.◌∷◌ c (String.◌∷◌ d s)) h =
    ap (cons_trimmed c) (trim_end_of_clean (String.◌∷◌ d s) h)

-- Trimming a second time changes nothing.
pub trim_idempotent : (s : String) → trim (trim s) ≡ trim s
unfolding trim
trim_idempotent s =
    let clean = trim_clean s in
    ap trim_end (trim_start_of_clean (trim_end (trim_start s)) clean.0)
    ∙ trim_end_of_clean (trim_end (trim_start s)) clean.1

-- What the form sends is what the generated `EchoRequest` reads.
pub from_json-echo_body : (req : EchoRequest) → EchoRequest.from_json (echo_body req) ≡ ok req
unfolding echo_body EchoRequest.from_json string_field
from_json-echo_body req = refl
