-- ===== src/Wire/Carries.antt =====
-- What a generated `decode` does with the bytes that the matching `encode` wrote.
pub mod Nested
use sample_grpc_service.Prelude.{
  ℕ, zero, suc, ◌+◌, ◌^◌, ◌≤◌, ◌<◌, ◌≡◌, sym, ap, ◌∙◌, subst, Bool, true, false, Option, none, some,
  inl, inr, Bool-cases, String, arith, List, [], ◌∷◌, ◌++◌, append_assoc, append-nil, length,
  length-append, str_eq, eq_iff, lt→ltb, le→ltb,
}
use sample_grpc_service.Prelude.Outcome.{Outcome, ok}
use sample_grpc_service.Wire.{
  Wire, WireLaws, Reader, Decoder, Field, decode_loop, decode_with, read_string, read_bool,
  read_message, new_reader,
}
use sample_grpc_service.Wire.Writes.{
  bytes_string, field_string, field_string?, field_bool, field_message, field_message?,
  field_messages, fits_left, fits_right,
}

abbrev pub at : {B : Type 0} → ℕ → List B → Reader B
at pos rest = record { pos = pos; rest = rest }

module _ (w : Wire) (laws : WireLaws w) where
  varint-pos : (n : ℕ) → n < 2 ^ 32 → 0 < length (w.varint n)
  varint-pos n h =
      let lt = laws.uint32_advances _ _ n (laws.get_uint32_lem n 0 [] h) in
      let la = length-append (w.varint n) [] in omega arith

  module _ {M : Type 0} (field : Field w M) where
    -- The loop goes over `bytes`, wherever they stand, and takes the message from `m` to `m'`.
    pub record Carries (bytes : List w.Byte) (m m' : M) : Type 0 where
      pub run :
          (pos end fuel : ℕ) (tail : List w.Byte)
          → pos + length bytes ≤ end
          → length bytes + length tail < fuel
          → (fuel' : ℕ) × (length tail < fuel')
            × (decode_loop w field fuel end m (at pos (bytes ++ tail))
                ≡ decode_loop w field fuel' end m' (at (pos + length bytes) tail))

    pub Carries-nil : (m : M) → Carries [] m m
    Carries-nil m = record {
      run = λ pos end fuel tail le lt. (
        fuel,
        omega arith,
        ap (λ (p : ℕ). decode_loop w field fuel end m (at p tail)) (omega arith),
      );
    }

    pub Carries-then :
        (a b : List w.Byte) (l m n : M) → Carries a l m → Carries b m n → Carries (a ++ b) l n
    Carries-then a b l m n f g = record {
      run = λ pos end fuel tail le lt.
          let la = length-append a b in
          let lb = length-append b tail in
          let (fuel₁, lt₁, e₁) = f.run pos end fuel (b ++ tail) (omega arith) (omega arith) in
          let (fuel₂, lt₂, e₂) =
            g.run (pos + length a) end fuel₁ tail (omega arith) (omega arith) in
          (
            fuel₂,
            lt₂,
            ap (λ (c : List w.Byte). decode_loop w field fuel end l (at pos c))
                  (append_assoc a b tail)
                ∙ e₁
                ∙ e₂
                ∙ ap (λ (p : ℕ). decode_loop w field fuel₂ end n (at p tail)) (omega arith),
          );
    }

    -- A field whose case reads `body` and sets the message to `m'`.
    module _ (tag : ℕ) (body : List w.Byte) (m m' : M) (small : tag < 2 ^ 32) where
      abbrev pub Handles : Type 0
      Handles =
          (fuel pos : ℕ) (tail : List w.Byte)
          → length body + length tail < fuel
          → field (decode_loop w field fuel) tag m (at pos (body ++ tail))
            ≡ some (ok (m', at (pos + length body) tail))

      field_runs :
          Handles
          → (pos end fuel : ℕ) (tail : List w.Byte) → pos + length (w.varint tag ++ body) ≤ end
          → length (w.varint tag ++ body) + length tail < fuel
          → (fuel' : ℕ) × (length tail < fuel')
            × (decode_loop w field fuel end m (at pos ((w.varint tag ++ body) ++ tail))
                ≡ decode_loop w field fuel' end m' (at (pos + length (w.varint tag ++ body)) tail))
      unfolding decode_loop
      field_runs handle pos end zero tail le lt = absurd (omega arith)
      field_runs handle pos end (suc f) tail le lt =
          let la = length-append (w.varint tag) body in
          let p = varint-pos tag small in
          (
            f,
            omega arith,
            rw (append_assoc (w.varint tag) body tail) (
                rw (lt→ltb pos end (omega arith)) (
                  rw (laws.get_uint32_lem tag pos (body ++ tail) small) (
                    rw (handle f (pos + length (w.varint tag)) tail (omega arith))
                      (ap (λ (q : ℕ). decode_loop w field f end m' (at q tail)) (omega arith))))),
          )

      pub Carries-field : Handles → Carries (w.varint tag ++ body) m m'
      Carries-field handle = record { run = field_runs handle }

    pub Carries-string :
        (tag : ℕ) (s : String) (m : M) (set : String → M)
        → tag < 2 ^ 32
        → length (field_string w tag s) < 2 ^ 32
        → ((self : Decoder w M) (r : Reader w.Byte) → field self tag m r ≡ read_string w r set)
        → set "" ≡ m
        → Carries (field_string w tag s) m (set s)
    unfolding field_string
    Carries-string tag s m set small fits handle skip = elim (Bool-cases (str_eq s "")) [
      | inl empty ↦
          let e : s ≡ "" = (eq_iff s "").0 empty in
          rw empty (subst (λ n. Carries [] m n) (sym skip ∙ ap set (sym e)) (Carries-nil m))
      | inr full ↦ rw full (bytes_carried (rw full at fits))
    ]
      where
        bytes_carried :
            length (bytes_string w tag s) < 2 ^ 32 → Carries (bytes_string w tag s) m (set s)
        bytes_carried small' =
            let la = length-append (w.varint tag) (w.varint (length (w.utf8 s)) ++ w.utf8 s) in
            let lb = length-append (w.varint (length (w.utf8 s))) (w.utf8 s) in
            Carries-field tag _ m (set s) small
              λ fuel pos tail lt. rw (handle _ _, laws.get_string_lem s pos tail (omega arith))

    pub Carries-string? :
        (tag : ℕ) (s : Option String) (m : M) (set : Option String → M)
        → tag < 2 ^ 32
        → length (field_string? w tag s) < 2 ^ 32
        → ((self : Decoder w M) (r : Reader w.Byte)
            → field self tag m r ≡ read_string w r (λ v. set (some v)))
        → set none ≡ m
        → Carries (field_string? w tag s) m (set s)
    unfolding field_string?
    Carries-string? tag none m set small fits handle skip =
        subst (λ n. Carries [] m n) (sym skip) (Carries-nil m)
    Carries-string? tag (some s) m set small fits handle skip =
        let la = length-append (w.varint tag) (w.varint (length (w.utf8 s)) ++ w.utf8 s) in
        let lb = length-append (w.varint (length (w.utf8 s))) (w.utf8 s) in
        Carries-field tag _ m (set (some s)) small
          λ fuel pos tail lt. rw (handle _ _, laws.get_string_lem s pos tail (omega arith))

    pub Carries-bool :
        (tag : ℕ) (b : Bool) (m : M) (set : Bool → M)
        → tag < 2 ^ 32
        → ((self : Decoder w M) (r : Reader w.Byte) → field self tag m r ≡ read_bool w r set)
        → set false ≡ m
        → Carries (field_bool w tag b) m (set b)
    unfolding field_bool
    Carries-bool tag false m set small handle skip =
        subst (λ n. Carries [] m n) (sym skip) (Carries-nil m)
    Carries-bool tag true m set small handle skip =
        Carries-field tag _ m (set true) small
          λ fuel pos tail lt. rw (handle _ _, laws.get_bool_lem true pos tail)

  module _ {M : Type 0} (field : Field w M) (base m : M) (bytes : List w.Byte) where
    loop_returns :
        (fuel end : ℕ) (tail : List w.Byte)
        → length tail < fuel
        → decode_loop w field fuel end m (at end tail) ≡ ok (m, at end tail)
    unfolding decode_loop
    loop_returns zero end tail lt = absurd (omega arith)
    loop_returns (suc fuel) end tail lt = rw (le→ltb end end (omega arith))

    -- The loop stops where the carried bytes end, if that is its end.
    pub decode_loop-Carries :
        (pos fuel : ℕ) (tail : List w.Byte)
        → length bytes + length tail < fuel
        → Carries field bytes base m
        → decode_loop w field fuel (pos + length bytes) base (at pos (bytes ++ tail))
          ≡ ok (m, at (pos + length bytes) tail)
    decode_loop-Carries pos fuel tail lt c =
        let (fuel', lt', e) = c.run pos (pos + length bytes) fuel tail (omega arith) lt in
        e ∙ loop_returns fuel' (pos + length bytes) tail lt'

    -- `decode(reader, length)` reads a message that ends where its bytes do.
    pub decode_with-Carries :
        (pos : ℕ) (tail : List w.Byte)
        → Carries field bytes base m
        → decode_with w field base (at pos (bytes ++ tail)) (some (length bytes))
          ≡ ok (m, at (pos + length bytes) tail)
    unfolding decode_with
    decode_with-Carries pos tail c =
        let la = length-append bytes tail in
        decode_loop-Carries pos (suc (length (bytes ++ tail))) tail (omega arith) c

    -- `decode(bytes)`
    pub decode_all-Carries :
        Carries field bytes base m
        → decode_with w field base (new_reader bytes) none ≡ ok (m, at (length bytes) [])
    unfolding decode_with
    decode_all-Carries c =
        let e : bytes ++ [] ≡ bytes = append-nil bytes in
        let z : 0 + length bytes ≡ length bytes = omega arith in
        subst
          (λ n.
            decode_loop w field (suc (length bytes)) (0 + length bytes) base (new_reader bytes)
            ≡ ok (m, at n []))
          z (rw e at (decode_loop-Carries 0 (suc (length (bytes ++ []))) [] (rw e (omega arith)) c))
