-- ===== src/Proto/Totals.antt =====
-- The readings that the cases of a `decode` of web/src/generated/google/protobuf/descriptor.ts are
-- made of, on any bytes.
use sample_grpc_service.Prelude.{
  ℕ, zero, suc, ◌+◌, ◌/◌, ◌<◌, ◌≡◌, ◌≢◌, refl, String, Bool, inl, inr, Bool-cases, Option, length,
  ltb, ◌==◌, arith,
}
use sample_grpc_service.Prelude.Outcome.{Outcome, ok, throw, stuck, ◌>>=◌}
use sample_grpc_service.Wire.{Reader, on_case}
use sample_grpc_service.Wire.Cases.{Total, some_case}
use sample_grpc_service.Wire.Loop.{Ends, Ends-le, Ends-bind, EndsField, Ends-of_read}
use sample_grpc_service.Proto.{
  Runtime, Scalar, In, read, read_packed, packed_loop, int32, text, flag, on_either,
}
use sample_grpc_service.Proto.Laws.{RuntimeLaws, Agrees, text_lem, flag_lem}

module _ (e : Runtime) (laws : RuntimeLaws e) {M : Type 0} where
  pub read-Ends :
      {A : Type 0} (s : Scalar e.wire.Byte A) {Fits : A → Type 0}
      → Agrees s Fits
      → (r : In e) (set : A → M) → EndsField (length r.rest) (read e s r set)
  unfolding read
  read-Ends s agrees r set =
      Ends-bind (length r.rest) (s.get r) (λ p. ok (set p.0, p.1))
        (Ends-of_read (length r.rest) (s.get r) (agrees.get_returns r)
          (λ r' v h. agrees.get_advances r r' v h))
        (λ v r' le. le)

  module _ (push : String → M → M) where
    -- The rest of a packed loop behind a value.
    value-Ends :
        (k end2 : ℕ) (m : M) (r : In e) (rest : String → M → In e → Outcome (M × In e))
        (res : Outcome (String × In e))
        → res ≢ stuck
        → ((r' : In e) (v : String) → res ≡ ok (v, r') → length r'.rest < length r.rest)
        → ((v : String) (r' : In e)
            → length r'.rest < length r.rest
            → Ends (length r'.rest) (rest v m r'))
        → Ends (length r.rest) (res >>= λ p. rest p.0 m p.1)
    value-Ends k end2 m r rest (ok (v, r')) ne less h =
        let lt = less r' v refl in Ends-le _ _ (rest v m r') (omega arith) (h v r' lt)
    value-Ends k end2 m r rest (throw x) ne less h = tt
    value-Ends k end2 m r rest stuck ne less h = ne refl

    packed_loop-Ends :
        (fuel end2 : ℕ) (m : M) (r : In e)
        → length r.rest < fuel
        → Ends (length r.rest) (packed_loop e (int32 e) push fuel end2 m r)
    unfolding packed_loop
    packed_loop-Ends zero end2 m r lt = absurd (omega arith)
    packed_loop-Ends (suc fuel) end2 m r lt = elim (Bool-cases (ltb r.pos end2)) [
      | inl more ↦ rw more (
          value-Ends (length r.rest) end2 m r
            (λ v k r'. packed_loop e (int32 e) push fuel end2 (push v k) r') (e.get_int32 r)
            (laws.int32_lem.get_returns r) (λ r' v h. laws.int32_shrinks r r' v h)
            (λ v r' less. packed_loop-Ends fuel end2 (push v m) r' (omega arith)))
      | inr done ↦ rw done (omega arith)
    ]

    pub read_packed-Ends :
        (r : In e) (m : M) → EndsField (length r.rest) (read_packed e (int32 e) r m push)
    unfolding read_packed
    read_packed-Ends r m =
        Ends-bind (length r.rest) (e.wire.get_uint32 r) _
          (Ends-of_read (length r.rest) (e.wire.get_uint32 r) ((laws.wire.reads_return r).0)
            (λ r' n h. let lt = laws.wire.uint32_advances r r' n h in omega arith))
          λ n r' le.
            Ends-le (length r'.rest) (length r.rest) _ le
              (packed_loop-Ends (suc (length r'.rest)) (n + r'.pos) m r' (omega arith))

pub on_either-Ends :
    {B M : Type 0} (n k t u tag : ℕ) (one many others : Option (Outcome (M × Reader B)))
    → EndsField n one
    → EndsField n many
    → EndsField n others
    → EndsField n (on_either k t u tag one many others)
on_either-Ends n k t u tag one many others a b o = elim (Bool-cases (tag / 8 == k)) [
  | inl same ↦ rw same (elim (Bool-cases (tag == t)) [
    | inl it ↦ rw it a
    | inr other ↦
        rw other (elim (Bool-cases (tag == u)) [ inl it ↦ rw it b | inr not_it ↦ rw not_it tt ])
  ])
  | inr other ↦ rw other o
]

-- A case that reads a value, before others.
module _ (e : Runtime) (laws : RuntimeLaws e) {M : Type 0} (r : In e) (n t tag : ℕ) where
  pub scalar_case :
      {A : Type 0} (s : Scalar e.wire.Byte A) {Fits : A → Type 0}
      → Agrees s Fits
      → (set : A → M) {others : Option (Outcome (M × In e))} → Total (length r.rest) others
      → Total (length r.rest) (on_case n t tag (read e s r set) others)
  scalar_case s agrees set h = some_case r n t tag _ (read-Ends e laws s agrees r set) h

  pub text_case :
      (set : String → M) {others : Option (Outcome (M × In e))}
      → Total (length r.rest) others
      → Total (length r.rest) (on_case n t tag (read e (text e) r set) others)
  text_case set h = scalar_case (text e) (text_lem e laws) set h

  pub flag_case :
      (set : Bool → M) {others : Option (Outcome (M × In e))}
      → Total (length r.rest) others
      → Total (length r.rest) (on_case n t tag (read e (flag e) r set) others)
  flag_case set h = scalar_case (flag e) (flag_lem e laws) set h

  pub int32_case :
      (set : String → M) {others : Option (Outcome (M × In e))}
      → Total (length r.rest) others
      → Total (length r.rest) (on_case n t tag (read e (int32 e) r set) others)
  int32_case set h = scalar_case (int32 e) laws.int32_lem set h

  pub ints_case :
      (u : ℕ) (m : M) (set : String → M) (push : String → M → M)
      {others : Option (Outcome (M × In e))}
      → Total (length r.rest) others
      → Total
          (length r.rest)
          (on_either n t u tag (read e (int32 e) r set) (read_packed e (int32 e) r m push) others)
  ints_case u m set push {others} h = record {
    ends =
        on_either-Ends (length r.rest) n t u tag _ _ others
          (read-Ends e laws (int32 e) laws.int32_lem r set) (read_packed-Ends e laws push r m)
          h.ends;
  }
