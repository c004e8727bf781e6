-- ===== src/Proto/Kept.antt =====
-- The kinds of fields that the messages of web/src/generated/google/protobuf/descriptor.ts have.
use sample_grpc_service.Prelude.{
  ℕ, ◌^◌, ◌≡◌, String, Bool, true, Option, some, List, [], ◌∷◌, ◌++◌, map, ltb, eq_iff,
}
use sample_grpc_service.Partial.{get_or}
use sample_grpc_service.Wire.{Decoder, Field}
use sample_grpc_service.Js.{Js}
use sample_grpc_service.Proto.{
  Runtime, In, are_bytes, text, flag, int32, uint64, int64, double, raw, write_or, write_each, read,
}
use sample_grpc_service.Proto.Laws.{RuntimeLaws, Passes, text_lem, flag_lem, uint64_lem, int64_lem}
use sample_grpc_service.Wire.Runs.{Any, Runs, OnOption, Any-option, Any-list}
use sample_grpc_service.Proto.Runs.{Runs-or, Runs-each, Kept, bytes_or, bytes_each}
use sample_grpc_service.Proto.Same.{bool_same, empty_lem}
use sample_grpc_service.Proto.Json.Agrees.{Known}

-- The numbers of an enum: any that the wire carries, or those with a name only.
pub data Enums : Type 0 where
  numbered named : Enums

abbrev pub FitsEnum : {E : Type 0} → Runtime → Enums → (Js → E) → (E → String) → String → Type 0
FitsEnum e numbered from_json enum_value n = Passes e.is_int32 n
FitsEnum e named from_json enum_value n = Known from_json enum_value n

module _ (e : Runtime) (laws : RuntimeLaws e) where
  pub text-Kept : (d : String) → Kept (text e) Any d
  text-Kept d = record { agrees = text_lem e laws; same_lem = λ v h. (eq_iff v d).0 h }

  pub flag-Kept : (d : Bool) → Kept (flag e) Any d
  flag-Kept d = record { agrees = flag_lem e laws; same_lem = λ v. bool_same v d }

  pub int32-Kept : (d : String) → Kept (int32 e) (Passes e.is_int32) d
  int32-Kept d = record { agrees = laws.int32_lem; same_lem = λ v h. (eq_iff v d).0 h }

  pub uint64-Kept : (d : String) → Kept (uint64 e) (Passes e.is_uint64) d
  uint64-Kept d = record { agrees = uint64_lem e laws; same_lem = λ v h. (eq_iff v d).0 h }

  pub int64-Kept : (d : String) → Kept (int64 e) (Passes e.is_int64) d
  int64-Kept d = record { agrees = int64_lem e laws; same_lem = λ v h. (eq_iff v d).0 h }

  pub double-Kept : (d : String) → Kept (double e) (Passes e.is_double) d
  double-Kept d = record { agrees = laws.double_lem; same_lem = λ v h. (eq_iff v d).0 h }

  pub raw-Kept : Kept (raw e) (Passes are_bytes) []
  raw-Kept = record { agrees = laws.raw_lem; same_lem = empty_lem }

  module _ {M : Type 0} {field : Field e.wire M} where
    pub Runs-text :
        (d : String) (tag : ℕ) (o : Option String) (set : Option String → M → M) {m : M}
        → ltb tag (2 ^ 32) ≡ true
        → ((self : Decoder e.wire M) (k : M) (r : In e)
            → field self tag k r ≡ read e (text e) r (λ v. set (some v) k))
        → set (some d) m ≡ m
        → Runs e.wire laws.wire field
            (write_or e (text e) tag d o)
            (bytes_or e (text e) tag d o)
            m
            (set (some (get_or d o)) m)
    Runs-text d tag o set small handle skip =
        Runs-or e laws (text-Kept d) tag o set small (Any-option o) handle skip

    pub Runs-flag :
        (d : Bool) (tag : ℕ) (o : Option Bool) (set : Option Bool → M → M) {m : M}
        → ltb tag (2 ^ 32) ≡ true
        → ((self : Decoder e.wire M) (k : M) (r : In e)
            → field self tag k r ≡ read e (flag e) r (λ v. set (some v) k))
        → set (some d) m ≡ m
        → Runs e.wire laws.wire field
            (write_or e (flag e) tag d o)
            (bytes_or e (flag e) tag d o)
            m
            (set (some (get_or d o)) m)
    Runs-flag d tag o set small handle skip =
        Runs-or e laws (flag-Kept d) tag o set small (Any-option o) handle skip

    pub Runs-int32 :
        (d : String) (tag : ℕ) (o : Option String) (set : Option String → M → M) {m : M}
        → ltb tag (2 ^ 32) ≡ true
        → OnOption (Passes e.is_int32) o
        → ((self : Decoder e.wire M) (k : M) (r : In e)
            → field self tag k r ≡ read e (int32 e) r (λ v. set (some v) k))
        → set (some d) m ≡ m
        → Runs e.wire laws.wire field
            (write_or e (int32 e) tag d o)
            (bytes_or e (int32 e) tag d o)
            m
            (set (some (get_or d o)) m)
    Runs-int32 d tag o set small fits handle skip =
        Runs-or e laws (int32-Kept d) tag o set small fits handle skip

    pub Runs-texts :
        (tag : ℕ) (l : List String) (set : List String → M → M) {m : M}
        → ltb tag (2 ^ 32) ≡ true
        → ((self : Decoder e.wire M) (before : List String) (k : M) (r : In e)
            → field self tag (set before k) r ≡ read e (text e) r (λ v. set (before ++ (v ∷ [])) k))
        → set [] m ≡ m
        → Runs e.wire laws.wire field
            (write_each e (text e) tag l)
            (bytes_each e (text e) tag l)
            m
            (set (map (λ v. v) l) m)
    Runs-texts tag l set small handle skip =
        Runs-each e laws (text_lem e laws) tag l set small (Any-list l) handle skip
