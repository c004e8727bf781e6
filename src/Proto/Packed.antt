-- ===== src/Proto/Packed.antt =====
-- The packed lists of web/src/generated/google/protobuf/descriptor.ts: their bytes, and the loop
-- that reads them.
use sample_grpc_service.Prelude.{
  ℕ, zero, suc, ◌+◌, ◌^◌, ◌<◌, ◌≡◌, sym, ap, ◌∙◌, String, true, ltb, ltb→lt, le→ltb, lt→ltb, some,
  List, [], ◌∷◌, ◌++◌, length, length-append, map, append_assoc, append-nil, arith,
}
use native.Mathlib.Nat.{add_comm}
use sample_grpc_service.Prelude.Outcome.{ok}
use sample_grpc_service.Wire.{for_each, Decoder, Field}
use sample_grpc_service.Wire.Writes.{bytes_all, Writes, Writes-nil, Writes-then, fits_right}
use sample_grpc_service.Wire.Carries.{at, Carries-field}
use sample_grpc_service.Proto.{Runtime, Bytes, In, write_packed, read_packed, packed_loop, int32}
use sample_grpc_service.Proto.Laws.{RuntimeLaws, Passes}
use sample_grpc_service.Wire.Runs.{Runs, OnList}

module _ (e : Runtime) where
  abbrev packed : List String → Bytes e
  packed l = bytes_all e.int32 l

  unfoldable pub bytes_packed : ℕ → List String → Bytes e
  bytes_packed tag l = e.wire.varint tag ++ (e.wire.varint (length (packed l)) ++ packed l)

module _ (e : Runtime) (laws : RuntimeLaws e) where
  abbrev Fits : String → Type 0
  Fits = Passes e.is_int32

  int32-pos : (v : String) → Fits v → length (e.int32 v) < 2 ^ 32 → 0 < length (e.int32 v)
  int32-pos v fits small =
      let lt = laws.int32_shrinks _ _ v (laws.int32_lem.get_lem v 0 [] fits small) in
      let la = length-append (e.int32 v) [] in omega arith

  put_all :
      (l : List String) → OnList Fits l → Writes e.wire (λ x. for_each e.put_int32 l x) (packed e l)
  put_all [] fits = Writes-nil e.wire
  put_all (v ∷ l) fits =
      Writes-then e.wire (e.put_int32 v) (λ x. for_each e.put_int32 l x) (e.int32 v) (packed e l)
        (record { at = λ x small. laws.int32_lem.put_lem v x fits.0 small }) (put_all l fits.1)

  Writes-packed :
      (tag : ℕ) (l : List String)
      → tag < 2 ^ 32
      → OnList Fits l
      → Writes e.wire (write_packed e (int32 e) tag l) (bytes_packed e tag l)
  unfolding write_packed bytes_packed
  Writes-packed tag l small fits = record {
    at = λ x h.
        let inner = fits_right _ (e.wire.varint tag) _ h in
        rw
          (
            write_packed,
            laws.wire.put_uint32_lem tag x small,
            laws.wire.fork_lem _,
            (put_all l fits).at _
                (fits_right _ (e.wire.varint (length (packed e l))) (packed e l) inner),
            laws.wire.join_lem (x.chunk ++ e.wire.varint tag) x.outer (packed e l)
                (fits_right _ (e.wire.varint (length (packed e l))) (packed e l) inner),
          )
          (ap (λ (c : Bytes e). record x { chunk = c })
            (append_assoc x.chunk (e.wire.varint tag) _));
  }

  module _ {M : Type 0} (push : String → M → M) where
    -- The loop pushes the values of the list and stops behind them.
    loop_reads :
        (l : List String) (m : M) (fuel pos end2 : ℕ) (tail : Bytes e)
        → OnList Fits l
        → length (packed e l) < 2 ^ 32
        → length (packed e l) < fuel
        → end2 ≡ pos + length (packed e l)
        → packed_loop e (int32 e) push fuel end2 m (at pos (packed e l ++ tail))
          ≡ ok (for_each push l m, at end2 tail)
    unfolding packed_loop
    loop_reads l m zero pos end2 tail fits small lt stop = absurd (omega arith)
    loop_reads [] m (suc fuel) pos end2 tail fits small lt stop =
        rw (le→ltb pos end2 (omega arith))
          (rw stop (ap (λ (p : ℕ). ok (m, at p tail)) (omega arith)))
    loop_reads (v ∷ l) m (suc fuel) pos end2 tail fits small lt stop =
        let la = length-append (e.int32 v) (packed e l) in
        let p = int32-pos v fits.0 (omega arith) in
        rw (lt→ltb pos end2 (omega arith)) (
          rw (append_assoc (e.int32 v) (packed e l) tail) (
            rw (laws.int32_lem.get_lem v pos (packed e l ++ tail) fits.0 (omega arith)) (
              loop_reads l (push v m) fuel (pos + length (e.int32 v)) end2 tail fits.1 (omega arith)
                (omega arith) (omega arith))))

  for_each-set :
      {M : Type 0} (push : String → M → M) (set : List String → M) (before l : List String)
      → ((v : String) (k : List String) → push v (set k) ≡ set (k ++ (v ∷ [])))
      → for_each push l (set before) ≡ set (before ++ map (λ v. v) l)
  for_each-set push set before [] h = ap set (sym (append-nil before))
  for_each-set push set before (v ∷ l) h =
      rw (h v before)
        (for_each-set push set (before ++ (v ∷ [])) l h ∙ ap set (append_assoc before (v ∷ []) _))

  -- `writer.uint32(tag).fork(); for (const v of l) { writer.int32(v); } writer.join();`
  pub Runs-packed :
      {M : Type 0} {field : Field e.wire M} (tag : ℕ) (l : List String) (set : List String → M → M)
      (push : String → M → M) {m : M}
      → ltb tag (2 ^ 32) ≡ true
      → OnList Fits l
      → ((self : Decoder e.wire M) (k : M) (r : In e)
          → field self tag k r ≡ read_packed e (int32 e) r k push)
      → ((v : String) (k : List String) → push v (set k m) ≡ set (k ++ (v ∷ [])) m)
      → set [] m ≡ m
      → Runs e.wire laws.wire field
          (write_packed e (int32 e) tag l)
          (bytes_packed e tag l)
          m
          (set (map (λ v. v) l) m)
  unfolding bytes_packed read_packed
  Runs-packed {M} {field} tag l set push {m} small fits handle pushes skip = record {
    writes = Writes-packed tag l (ltb→lt _ _ small) fits;
    carries = λ h.
        let inner = fits_right _ (e.wire.varint tag) _ h in
        let pushed : for_each push l m ≡ set (map (λ v. v) l) m =
          ap (for_each push l) (sym skip) ∙ for_each-set push (λ k. set k m) [] l pushes in
        let short = fits_right _ (e.wire.varint (length (packed e l))) (packed e l) inner in
        Carries-field e.wire laws.wire field tag _ m (set (map (λ v. v) l) m) (ltb→lt _ _ small)
          λ fuel pos tail lt.
            let la = length-append (e.wire.varint (length (packed e l))) (packed e l) in
            let lb = length-append (packed e l) tail in
            rw (handle _ _ _) (
              rw (append_assoc (e.wire.varint (length (packed e l))) (packed e l) tail) (
                rw (laws.wire.get_uint32_lem (length (packed e l)) pos (packed e l ++ tail) short) (
                  ap some (
                    loop_reads push l m (suc (length (packed e l ++ tail))) _ _ tail fits short
                      (omega arith) (add_comm (length (packed e l)) _)
                    ∙ ap
                        (λ (k : M). ok (
                          k,
                          at
                              (length (packed e l)
                                + (pos + length (e.wire.varint (length (packed e l)))))
                              tail,
                        ))
                        pushed
                    ∙ ap (λ (p : ℕ). ok (set (map (λ v. v) l) m, at p tail)) (omega arith)))));
  }
