-- ===== src/Proto/Runs.antt =====
-- The fields of a message of web/src/generated/google/protobuf/descriptor.ts: their bytes, and what
-- `encode` and `decode` do with them.
use sample_grpc_service.Prelude.{
  ℕ, ◌^◌, ◌<◌, ◌≡◌, refl, sym, ap, ◌∙◌, subst, Bool, true, false, ltb, ltb→lt, Option, none, some,
  List, [], ◌∷◌, ◌++◌, length, map, append_assoc, if◌then◌else◌,
}
use sample_grpc_service.Partial.{get_or}
use sample_grpc_service.Wire.{Decoder, Field}
use sample_grpc_service.Wire.Runs.{Runs, Runs-nil, Runs-for_each, OnOption, OnList}
use sample_grpc_service.Wire.Writes.{Writes, bytes_all, fits_right}
use sample_grpc_service.Wire.Carries.{Carries, Carries-field}
use sample_grpc_service.Proto.{Runtime, Scalar, Bytes, In, write_or, write_each, read}
use sample_grpc_service.Proto.Laws.{RuntimeLaws, Agrees}

module _ (e : Runtime) {A : Type 0} (s : Scalar e.wire.Byte A) where
  -- The bytes of a field, and of a list of values with a tag each.
  abbrev pub bytes_one : ℕ → A → Bytes e
  bytes_one tag v = e.wire.varint tag ++ s.bytes v

  unfoldable pub bytes_or : ℕ → A → Option A → Bytes e
  bytes_or tag d none = []
  bytes_or tag d (some v) = if s.same v d then [] else bytes_one tag v

  unfoldable pub bytes_each : ℕ → List A → Bytes e
  bytes_each tag l = bytes_all (bytes_one tag) l

module _ (e : Runtime) (laws : RuntimeLaws e) {A : Type 0} (s : Scalar e.wire.Byte A)
    (Fits : A → Type 0) (agrees : Agrees s Fits) (tag : ℕ) where
  pub Writes-one :
      (v : A)
      → tag < 2 ^ 32
      → Fits v
      → Writes e.wire (λ x. s.put v (e.wire.put_uint32 tag x)) (bytes_one e s tag v)
  Writes-one v small fits = record {
    at = λ x h.
        rw
          (
            laws.wire.put_uint32_lem tag x small,
            agrees.put_lem v _ fits (fits_right _ (e.wire.varint tag) _ h),
          )
          (ap (λ (c : Bytes e). record x { chunk = c })
            (append_assoc x.chunk (e.wire.varint tag) (s.bytes v)));
  }

  module _ {M : Type 0} (field : Field e.wire M) where
    pub Carries-one :
        (v : A) (m : M) (set : A → M)
        → tag < 2 ^ 32
        → Fits v
        → ((self : Decoder e.wire M) (r : In e) → field self tag m r ≡ read e s r set)
        → length (bytes_one e s tag v) < 2 ^ 32
        → Carries e.wire laws.wire field (bytes_one e s tag v) m (set v)
    unfolding read
    Carries-one v m set small fits handle h =
        Carries-field e.wire laws.wire field tag (s.bytes v) m (set v) small λ fuel pos tail lt.
          rw (handle _ _, agrees.get_lem v pos tail fits (fits_right _ (e.wire.varint tag) _ h))
            refl

-- A scalar with the default that its field leaves out.
pub record Kept {B A : Type 0} (s : Scalar B A) (Fits : A → Type 0) (d : A) : Type 0 where
  pub agrees : Agrees s Fits
  pub same_lem : (v : A) → s.same v d ≡ true → v ≡ d

module _ (e : Runtime) (laws : RuntimeLaws e) {M : Type 0} {field : Field e.wire M} where
  -- `if (v !== undefined && v !== d) { … }`; a missing value is read back as the default.
  pub Runs-or :
      {A : Type 0} {s : Scalar e.wire.Byte A} {Fits : A → Type 0} {d : A} (kept : Kept s Fits d)
      (tag : ℕ) (o : Option A) (set : Option A → M → M) {m : M}
      → ltb tag (2 ^ 32) ≡ true
      → OnOption Fits o
      → ((self : Decoder e.wire M) (k : M) (r : In e)
          → field self tag k r ≡ read e s r (λ v. set (some v) k))
      → set (some d) m ≡ m
      → Runs e.wire laws.wire field
          (write_or e s tag d o)
          (bytes_or e s tag d o)
          m
          (set (some (get_or d o)) m)
  unfolding write_or bytes_or
  Runs-or {A} {s} {Fits} {d} kept tag none set {m} small fits handle skip =
      rw skip (Runs-nil e.wire laws.wire m)
  Runs-or {A} {s} {Fits} {d} kept tag (some v) set {m} small fits handle skip =
      tested (s.same v d) refl
    where
      tested :
          (b : Bool)
          → s.same v d ≡ b
          → Runs e.wire laws.wire field
              (λ x. if b then x else s.put v (e.wire.put_uint32 tag x))
              (if b then [] else bytes_one e s tag v)
              m
              (set (some v) m)
      tested true default =
          subst (λ k. Runs e.wire laws.wire field (λ x. x) [] m k)
            (sym skip ∙ ap (λ u. set (some u) m) (sym (kept.same_lem v default)))
            (Runs-nil e.wire laws.wire m)
      tested false other = record {
        writes = Writes-one e laws s Fits kept.agrees tag v (ltb→lt _ _ small) fits;
        carries =
            Carries-one e laws s Fits kept.agrees tag field v m (λ u. set (some u) m)
              (ltb→lt _ _ small) fits (λ self r. handle self m r);
      }

  -- `for (const v of l) { writer.uint32(tag).put(v!); }`, each value pushed.
  pub Runs-each :
      {A : Type 0} {s : Scalar e.wire.Byte A} {Fits : A → Type 0} (agrees : Agrees s Fits) (tag : ℕ)
      (l : List A) (set : List A → M → M) {m : M}
      → ltb tag (2 ^ 32) ≡ true
      → OnList Fits l
      → ((self : Decoder e.wire M) (before : List A) (k : M) (r : In e)
          → field self tag (set before k) r ≡ read e s r (λ v. set (before ++ (v ∷ [])) k))
      → set [] m ≡ m
      → Runs e.wire laws.wire field
          (write_each e s tag l)
          (bytes_each e s tag l)
          m
          (set (map (λ v. v) l) m)
  unfolding write_each bytes_each
  Runs-each {A} {s} {Fits} agrees tag l set {m} small fits handle skip =
      subst
        (λ n.
          Runs e.wire laws.wire field (write_each e s tag l) (bytes_each e s tag l) n
            (set (map (λ v. v) l) m))
        skip
        (Runs-for_each e.wire laws.wire (λ v y. s.put v (e.wire.put_uint32 tag y))
          (bytes_one e s tag) (λ v. v) (λ k. set k m)
          (λ before v ok. record {
            writes = Writes-one e laws s Fits agrees tag v (ltb→lt _ _ small) ok;
            carries =
                Carries-one e laws s Fits agrees tag field v (set before m)
                  (λ u. set (before ++ (u ∷ [])) m) (ltb→lt _ _ small) ok
                  (λ self r. handle self before m r);
          })
          l fits)
