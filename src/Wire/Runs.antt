-- ===== src/Wire/Runs.antt =====
-- What `encode` writes for a run of fields and what `decode` makes of it, in the generated codecs of
-- web/src/generated.
use sample_grpc_service.Prelude.{
  ℕ, ◌^◌, ◌<◌, ◌≡◌, sym, subst, String, Bool, true, false, ltb, ltb→lt, Option, none, some, List,
  [], ◌∷◌, ◌++◌, length, map, append_assoc, append-nil,
}
use sample_grpc_service.Wire.{
  Wire, WireLaws, Writer, Reader, Decoder, Field, ◌▸◌, for_each, write_string, write_string?,
  write_bool, read_string, read_bool,
}
use sample_grpc_service.Wire.Writes.{
  Writes, Writes-nil, Writes-then, Writes-string, Writes-string?, Writes-bool, field_string,
  field_string?, field_bool, bytes_all, fits_left, fits_right,
}
use sample_grpc_service.Wire.Carries.{
  Carries, Carries-nil, Carries-then, Carries-string, Carries-string?, Carries-bool,
}

abbrev pub Any {ℓ} : {A : Type ℓ} → A → Type 0
Any v = Unit

-- Of an optional value, and of each value of a list.
abbrev pub OnOption {ℓ} : {A : Type ℓ} → (A → Type 0) → Option A → Type 0
OnOption P none = Unit
OnOption P (some v) = P v

abbrev pub OnList {ℓ} : {A : Type ℓ} → (A → Type 0) → List A → Type 0
OnList P [] = Unit
OnList P (v ∷ l) = P v × OnList P l

pub Any-option : {A : Type 0} (o : Option A) → OnOption Any o
Any-option none = tt
Any-option (some v) = tt

pub Any-list : {A : Type 0} (l : List A) → OnList Any l
Any-list [] = tt
Any-list (v ∷ l) = (tt, Any-list l)

-- `write` appends `bytes`, and `decode` goes over them from the message `m` to `m'`.
pub record Runs (w : Wire) (laws : WireLaws w) {M : Type 0} (field : Field w M)
    (write : Writer w.Byte → Writer w.Byte) (bytes : List w.Byte) (m m' : M) : Type 0 where
  pub writes : Writes w write bytes
  pub carries : length bytes < 2 ^ 32 → Carries w laws field bytes m m'

infixl 3 ◌⨾◌
pub ◌⨾◌ :
    {w : Wire} {laws : WireLaws w} {M : Type 0} {field : Field w M}
    {f g : Writer w.Byte → Writer w.Byte} {a b : List w.Byte} {l m n : M}
    → Runs w laws field f a l m
    → Runs w laws field g b m n
    → Runs w laws field (λ x. f x ▸ g) (a ++ b) l n
◌⨾◌ {w} {laws} {M} {field} {f} {g} {a} {b} {l} {m} {n} p q = record {
  writes = Writes-then w f g a b p.writes q.writes;
  carries = λ small.
      Carries-then w laws field a b l m n (p.carries (fits_left _ a b small))
        (q.carries (fits_right _ a b small));
}

module _ (w : Wire) (laws : WireLaws w) {M : Type 0} {field : Field w M} where
  pub Runs-nil : (m : M) → Runs w laws field (λ x. x) [] m m
  Runs-nil m = record { writes = Writes-nil w; carries = λ h. Carries-nil w laws field m }

  -- A loop over a list whose values are pushed one by one, `v` as `fill v`.
  module _ {A : Type 0} {Fits : A → Type 0} (write : A → Writer w.Byte → Writer w.Byte)
      (bytes : A → List w.Byte) (fill : A → A) (set : List A → M)
      (one : (before : List A) (v : A)
        → Fits v
        → Runs w laws field (write v) (bytes v) (set before) (set (before ++ (fill v ∷ [])))) where
    Runs-pushed :
        (before l : List A)
        → OnList Fits l
        → Runs w laws field
            (for_each write l)
            (bytes_all bytes l)
            (set before)
            (set (before ++ map fill l))
    Runs-pushed before [] fits =
        subst (λ k. Runs w laws field (λ x. x) [] (set before) (set k)) (sym (append-nil before))
          (Runs-nil (set before))
    Runs-pushed before (v ∷ l) fits =
        subst
          (λ k.
            Runs w laws field (for_each write (v ∷ l)) (bytes_all bytes (v ∷ l)) (set before)
              (set k))
          (append_assoc before (fill v ∷ []) (map fill l))
          (one before v fits.0 ⨾ Runs-pushed (before ++ (fill v ∷ [])) l fits.1)

    pub Runs-for_each :
        (l : List A)
        → OnList Fits l
        → Runs w laws field (for_each write l) (bytes_all bytes l) (set []) (set (map fill l))
    Runs-for_each l fits = Runs-pushed [] l fits

  -- The fields of proto3 messages.
  pub Runs-string :
      (tag : ℕ) (s : String) (set : String → M → M) {m : M}
      → ltb tag (2 ^ 32) ≡ true
      → ((self : Decoder w M) (k : M) (r : Reader w.Byte)
          → field self tag k r ≡ read_string w r (λ v. set v k))
      → set "" m ≡ m
      → Runs w laws field (write_string w tag s) (field_string w tag s) m (set s m)
  Runs-string tag s set {m} small handle skip = record {
    writes = Writes-string w laws tag s (ltb→lt _ _ small);
    carries = λ h.
        Carries-string w laws field tag s m (λ v. set v m) (ltb→lt _ _ small) h
          (λ self r. handle self m r) skip;
  }

  pub Runs-bool :
      (tag : ℕ) (b : Bool) (set : Bool → M → M) {m : M}
      → ltb tag (2 ^ 32) ≡ true
      → ((self : Decoder w M) (k : M) (r : Reader w.Byte)
          → field self tag k r ≡ read_bool w r (λ v. set v k))
      → set false m ≡ m
      → Runs w laws field (write_bool w tag b) (field_bool w tag b) m (set b m)
  Runs-bool tag b set {m} small handle skip = record {
    writes = Writes-bool w laws tag b (ltb→lt _ _ small);
    carries = λ h.
        Carries-bool w laws field tag b m (λ v. set v m) (ltb→lt _ _ small)
          (λ self r. handle self m r) skip;
  }

  pub Runs-string? :
      (tag : ℕ) (s : Option String) (set : Option String → M → M) {m : M}
      → ltb tag (2 ^ 32) ≡ true
      → ((self : Decoder w M) (k : M) (r : Reader w.Byte)
          → field self tag k r ≡ read_string w r (λ v. set (some v) k))
      → set none m ≡ m
      → Runs w laws field (write_string? w tag s) (field_string? w tag s) m (set s m)
  Runs-string? tag s set {m} small handle skip = record {
    writes = Writes-string? w laws tag s (ltb→lt _ _ small);
    carries = λ h.
        Carries-string? w laws field tag s m (λ v. set v m) (ltb→lt _ _ small) h
          (λ self r. handle self m r) skip;
  }
