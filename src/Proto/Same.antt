-- ===== src/Proto/Same.antt =====
-- The tests by which the codecs of web/src/generated/google/protobuf/descriptor.ts leave out a
-- default.
use sample_grpc_service.Prelude.{
  ℕ, ◌≡◌, ◌==◌, refl, Bool, true, false, List, [], ◌∷◌, length, arith,
}
use sample_grpc_service.Proto.{bool_eq}

pub bool_same : (b d : Bool) → bool_eq b d ≡ true → b ≡ d
bool_same true d h = cc h
bool_same false true h = cc h
bool_same false false h = refl

pub empty_lem : (v : List ℕ) → (length v == 0) ≡ true → v ≡ []
empty_lem [] h = refl
empty_lem (b ∷ v) h = ground arith
