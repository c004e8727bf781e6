-- ===== src/Wire/Writes.antt =====
-- What the pieces of a generated `encode` append to the open chunk of the writer.
use sample_grpc_service.Prelude.{
  ℕ, ◌+◌, ◌^◌, ◌<◌, ◌≡◌, ap, Bool, true, false, Option, none, some, inl, inr, Bool-cases, String,
  arith, List, [], ◌∷◌, ◌++◌, append_assoc, append-nil, if◌then◌else◌, length, length-append,
  str_eq,
}
use sample_grpc_service.Wire.{
  Wire, WireLaws, Writer, write_string, write_string?, write_bool, write_message, bool_bit, ◌▸◌,
}

pub fits_left : {B : Type 0} (n : ℕ) (a b : List B) → length (a ++ b) < n → length a < n
fits_left n a b h = let la = length-append a b in omega arith

pub fits_right : {B : Type 0} (n : ℕ) (a b : List B) → length (a ++ b) < n → length b < n
fits_right n a b h = let la = length-append a b in omega arith

abbrev pub append : {B : Type 0} → Writer B → List B → Writer B
append x bytes = record x { chunk = x.chunk ++ bytes }

append-append :
    {B : Type 0} (x : Writer B) (a b : List B) → append (append x a) b ≡ append x (a ++ b)
append-append {B} x a b = ap (λ (c : List B). record x { chunk = c }) (append_assoc x.chunk a b)

abbrev pub bytes_all {ℓ} : {A : Type ℓ} {B : Type 0} → (A → List B) → List A → List B
bytes_all f [] = []
bytes_all f (v ∷ l) = f v ++ bytes_all f l

module _ (w : Wire) where
  abbrev pub bytes_string : ℕ → String → List w.Byte
  bytes_string tag s = w.varint tag ++ (w.varint (length (w.utf8 s)) ++ w.utf8 s)

  -- The bytes of a field on the wire; a proto3 default is left out.
  unfoldable pub field_string : ℕ → String → List w.Byte
  field_string tag s = if str_eq s "" then [] else bytes_string tag s

  unfoldable pub field_string? : ℕ → Option String → List w.Byte
  field_string? tag none = []
  field_string? tag (some s) = bytes_string tag s

  unfoldable pub field_bool : ℕ → Bool → List w.Byte
  field_bool tag b = if b then w.varint tag ++ w.varint (bool_bit b) else []

  unfoldable pub field_message : ℕ → List w.Byte → List w.Byte
  field_message tag inner = w.varint tag ++ (w.varint (length inner) ++ inner)

  unfoldable pub field_message? {ℓ} : {M : Type ℓ} → (M → List w.Byte) → ℕ → Option M → List w.Byte
  unfolding field_message
  field_message? bytes tag none = []
  field_message? bytes tag (some m) = field_message tag (bytes m)

  unfoldable pub field_messages {ℓ} : {M : Type ℓ} → (M → List w.Byte) → ℕ → List M → List w.Byte
  field_messages bytes tag l = bytes_all (λ m. field_message tag (bytes m)) l

  -- `f` appends `bytes`, as long as no length passes 32 bits.
  pub record Writes (f : Writer w.Byte → Writer w.Byte) (bytes : List w.Byte) : Type 0 where
    pub at : (x : Writer w.Byte) → length bytes < 2 ^ 32 → f x ≡ append x bytes

  pub Writes-nil : Writes (λ x. x) []
  Writes-nil = record { at = λ x h. rw append-nil }

  pub Writes-then :
      (f g : Writer w.Byte → Writer w.Byte) (a b : List w.Byte)
      → Writes f a
      → Writes g b
      → Writes (λ x. f x ▸ g) (a ++ b)
  Writes-then f g a b hf hg = record {
    at = λ x h.
        let la : length (a ++ b) ≡ length a + length b = length-append a b in
        rw (hf.at x (omega arith), hg.at (append x a) (omega arith))
          (ap (λ (c : List w.Byte). record x { chunk = c }) (append_assoc x.chunk a b));
  }

  module _ (laws : WireLaws w) where
    Writes-bytes_string :
        (tag : ℕ) (s : String)
        → tag < 2 ^ 32
        → Writes (λ x. w.put_string s (w.put_uint32 tag x)) (bytes_string tag s)
    Writes-bytes_string tag s small = record {
      at = λ x h.
          let la = length-append (w.varint tag) (w.varint (length (w.utf8 s)) ++ w.utf8 s) in
          let lb = length-append (w.varint (length (w.utf8 s))) (w.utf8 s) in
          rw (laws.put_uint32_lem tag x small, laws.put_string_lem s _ (omega arith))
            (append-append x (w.varint tag) (w.varint (length (w.utf8 s)) ++ w.utf8 s));
    }

    pub Writes-string :
        (tag : ℕ) (s : String) → tag < 2 ^ 32 → Writes (write_string w tag s) (field_string tag s)
    unfolding write_string field_string
    Writes-string tag s small = record {
      at = λ x h. elim (Bool-cases (str_eq s "")) [
        | inl empty ↦ rw empty (rw append-nil)
        | inr full ↦ rw full ((Writes-bytes_string tag s small).at x (rw full at h))
      ];
    }

    pub Writes-string? :
        (tag : ℕ) (s : Option String)
        → tag < 2 ^ 32
        → Writes (write_string? w tag s) (field_string? tag s)
    unfolding write_string? field_string?
    Writes-string? tag none small = Writes-nil
    Writes-string? tag (some s) small = Writes-bytes_string tag s small

    pub Writes-bool :
        (tag : ℕ) (b : Bool) → tag < 2 ^ 32 → Writes (write_bool w tag b) (field_bool tag b)
    unfolding write_bool field_bool
    Writes-bool tag false small = Writes-nil
    Writes-bool tag true small = record {
      at = λ x h.
          rw (laws.put_uint32_lem tag x small, laws.put_bool_lem true _)
            (append-append x (w.varint tag) (w.varint (bool_bit true)));
    }

    pub Writes-message {ℓ} :
        {M : Type ℓ} (encode : M → Writer w.Byte → Writer w.Byte) (tag : ℕ) (m : M)
        (inner : List w.Byte)
        → tag < 2 ^ 32
        → Writes (encode m) inner
        → Writes (write_message w encode tag m) (field_message tag inner)
    unfolding write_message field_message
    Writes-message encode tag m inner small h = record {
      at = λ x fits.
          let la = length-append (w.varint tag) (w.varint (length inner) ++ inner) in
          let lb = length-append (w.varint (length inner)) inner in
          rw
            (
              write_message,
              laws.put_uint32_lem tag x small,
              laws.fork_lem _,
              h.at _ (omega arith),
              laws.join_lem (x.chunk ++ w.varint tag) x.outer inner (omega arith),
            )
            (append-append x (w.varint tag) (w.varint (length inner) ++ inner));
    }
