-- ===== src/Prelude/Outcome.antt =====
-- What a TypeScript function does: it returns, it throws, or (a model's loop only) its fuel ends.
use Prim.Native.String.{String}

pub data Thrown : Type 0 where
  type_error : String → Thrown
  wire_error : String → Thrown
  auth_error : String → Thrown
  error : String → Thrown

pub data Outcome {ℓ} (A : Type ℓ) : Type ℓ where
  ok : A → Outcome A
  throw : Thrown → Outcome A
  stuck : Outcome A

infixl 5 ◌>>=◌
abbrev pub ◌>>=◌ {ℓ κ} : {A : Type ℓ} {B : Type κ} → Outcome A → (A → Outcome B) → Outcome B
ok a >>= f = f a
throw e >>= f = throw e
stuck >>= f = stuck
