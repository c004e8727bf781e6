-- ===== src/Wire/Codec.antt =====
-- A message of web/src/generated as its users see it, and the fields that hold other messages.
use sample_grpc_service.Prelude.{
  ℕ, ◌+◌, ◌^◌, ◌<◌, ◌≡◌, sym, ap, refl, ◌∙◌, subst, Option, none, some, List, [], ◌∷◌, ◌++◌, length,
  map, ltb, ltb→lt, true,
}
use sample_grpc_service.Prelude.Outcome.{Outcome, ok}
use sample_grpc_service.Wire.{
  Wire, WireLaws, Writer, Reader, Decoder, Field, write_messages, write_message, write_message?,
  read_message, new_reader, new_writer, decode_with,
}
use sample_grpc_service.Wire.Loop.{Ends, IsTotal, decode_with-Ends, read_message-Ends, EndsField}
use sample_grpc_service.Wire.Writes.{
  Writes, Writes-message, field_message, field_message?, field_messages,
}
use sample_grpc_service.Wire.Carries.{at, decode_with-Carries, decode_all-Carries}
use sample_grpc_service.Wire.Carries.Nested.{Carries-message, inner_fits}
use sample_grpc_service.Wire.Runs.{Runs, Runs-nil, Runs-for_each, OnOption, OnList}
use mathlib.Core.Option

-- The operations of `MessageFns` on bytes with their laws: `fill` gives the missing values of a
-- message their defaults, and `Fits` says that its numbers fit their fields.
pub record Codec (w : Wire) (M : Type 0) : Type 1 where
  pub encode : M → Writer w.Byte → Writer w.Byte
  pub decode : Reader w.Byte → Option ℕ → Outcome (M × Reader w.Byte)
  pub bytes : M → List w.Byte
  pub fill : M → M
  pub Fits : M → Type 0
  pub encode_lem : (m : M) → Fits m → Writes w (encode m) (bytes m)
  pub decode_lem :
      (m : M) (pos : ℕ) (tail : List w.Byte)
      → Fits m
      → length (bytes m) < 2 ^ 32
      → decode (at pos (bytes m ++ tail)) (some (length (bytes m)))
        ≡ ok (fill m, at (pos + length (bytes m)) tail)
  pub decode_all :
      (m : M)
      → Fits m
      → length (bytes m) < 2 ^ 32
      → decode (new_reader (bytes m)) none ≡ ok (fill m, at (length (bytes m)) [])
  pub decode_ends : (r : Reader w.Byte) (len : Option ℕ) → Ends (length r.rest) (decode r len)

module _ (w : Wire) (laws : WireLaws w) {M : Type 0} where
  -- Decoding the whole of what `encode` writes on a new writer.
  pub decode_encoded :
      (c : Codec w M) (m : M)
      → c.Fits m
      → length (c.bytes m) < 2 ^ 32
      → c.decode (new_reader (w.finish (c.encode m new_writer))) none
        ≡ ok (c.fill m, at (length (c.bytes m)) [])
  decode_encoded c m fits small =
      rw ((c.encode_lem m fits).at new_writer small, laws.finish_lem (c.bytes m))
        (c.decode_all m fits small)

  -- A message whose fields run from a base message to `fill m`.
  module _ (encode : M → Writer w.Byte → Writer w.Byte)
      (decode : Reader w.Byte → Option ℕ → Outcome (M × Reader w.Byte)) (field : Field w M)
      (base : M) (bytes : M → List w.Byte) (fill : M → M) (Fits : M → Type 0)
      (loop : (r : Reader w.Byte) (len : Option ℕ) → decode r len ≡ decode_with w field base r len)
      (runs : (m : M) → Fits m → Runs w laws field (encode m) (bytes m) base (fill m))
      (total : IsTotal w laws field) where
    pub reads :
        (m : M) (pos : ℕ) (tail : List w.Byte)
        → Fits m
        → length (bytes m) < 2 ^ 32
        → decode (at pos (bytes m ++ tail)) (some (length (bytes m)))
          ≡ ok (fill m, at (pos + length (bytes m)) tail)
    reads m pos tail fits small =
        loop _ _
        ∙ decode_with-Carries w laws field base (fill m) (bytes m) pos tail
            ((runs m fits).carries small)

    pub reads_all :
        (m : M)
        → Fits m
        → length (bytes m) < 2 ^ 32
        → decode (new_reader (bytes m)) none ≡ ok (fill m, at (length (bytes m)) [])
    reads_all m fits small =
        loop _ _
        ∙ decode_all-Carries w laws field base (fill m) (bytes m) ((runs m fits).carries small)

    pub decode-Ends : (r : Reader w.Byte) (len : Option ℕ) → Ends (length r.rest) (decode r len)
    decode-Ends r len =
        subst (Ends (length r.rest)) (sym (loop r len))
          (decode_with-Ends w laws field total base r len)

    abbrev pub codec_of : Codec w M
    codec_of = record {
      encode = encode;
      decode = decode;
      bytes = bytes;
      fill = fill;
      Fits = Fits;
      encode_lem = λ m fits. (runs m fits).writes;
      decode_lem = reads;
      decode_all = reads_all;
      decode_ends = decode-Ends;
    }

module _ (w : Wire) (laws : WireLaws w) {N : Type 0} (c : Codec w N) {M : Type 0} where
  pub message-Ends :
      (r : Reader w.Byte) (set : N → M) → EndsField (length r.rest) (read_message w c.decode r set)
  message-Ends r set = read_message-Ends w laws r c.decode set (λ r' len le. c.decode_ends r' len)

module _ (w : Wire) (laws : WireLaws w) {M N : Type 0} (c : Codec w N) {field : Field w M} where
  Runs-message :
      (tag : ℕ) (v : N) (set : N → M) (m : M)
      → tag < 2 ^ 32
      → c.Fits v
      → ((self : Decoder w M) (r : Reader w.Byte)
          → field self tag m r ≡ read_message w c.decode r set)
      → Runs w laws field
          (write_message w c.encode tag v)
          (field_message w tag (c.bytes v))
          m
          (set (c.fill v))
  Runs-message tag v set m small fits handle = record {
    writes = Writes-message w laws c.encode tag v (c.bytes v) small (c.encode_lem v fits);
    carries = λ h.
        Carries-message w laws field tag (c.bytes v) m (c.fill v) set (λ self. c.decode) small h
          handle
          (λ fuel pos tail lt. c.decode_lem v pos tail fits (inner_fits w laws tag (c.bytes v) h));
  }

  -- `if (v !== undefined) { N.encode(v, writer.uint32(tag).fork()).join(); }`
  pub Runs-message? :
      (tag : ℕ) (o : Option N) (set : Option N → M → M) {m : M}
      → ltb tag (2 ^ 32) ≡ true
      → OnOption c.Fits o
      → ((self : Decoder w M) (k : M) (r : Reader w.Byte)
          → field self tag k r ≡ read_message w c.decode r (λ v. set (some v) k))
      → set none m ≡ m
      → Runs w laws field
          (write_message? w c.encode tag o)
          (field_message? w c.bytes tag o)
          m
          (set (Option.map c.fill o) m)
  unfolding write_message? field_message?
  Runs-message? tag none set {m} small fits handle skip =
      subst (λ k. Runs w laws field (λ x. x) [] m k) (sym skip) (Runs-nil w laws m)
  Runs-message? tag (some v) set {m} small fits handle skip =
      Runs-message tag v (λ u. set (some u) m) m (ltb→lt _ _ small) fits (λ self r. handle self m r)

  -- `for (const v of l) { N.encode(v!, writer.uint32(tag).fork()).join(); }`
  pub Runs-list :
      (tag : ℕ) (l : List N) (set : List N → M → M) {m : M}
      → ltb tag (2 ^ 32) ≡ true
      → OnList c.Fits l
      → ((self : Decoder w M) (before : List N) (k : M) (r : Reader w.Byte)
          → field self tag (set before k) r
            ≡ read_message w c.decode r (λ v. set (before ++ (v ∷ [])) k))
      → set [] m ≡ m
      → Runs w laws field
          (write_messages w c.encode tag l)
          (field_messages w c.bytes tag l)
          m
          (set (map c.fill l) m)
  unfolding write_messages field_messages
  Runs-list tag l set {m} small fits handle skip =
      subst
        (λ k.
          Runs w laws field (write_messages w c.encode tag l) (field_messages w c.bytes tag l) k
            (set (map c.fill l) m))
        skip
        (Runs-for_each w laws (write_message w c.encode tag) (λ v. field_message w tag (c.bytes v))
          c.fill (λ k. set k m)
          (λ before v ok.
            Runs-message tag v (λ u. set (before ++ (u ∷ [])) m) (set before m) (ltb→lt _ _ small)
              ok (λ self r. handle self before m r))
          l fits)

-- The same for messages that have no missing values, which are read as they were written.
module _ {w : Wire} {N : Type 0} (c : Codec w N) (same : (v : N) → c.fill v ≡ v) where
  Option-map-same : (o : Option N) → Option.map c.fill o ≡ o
  Option-map-same none = refl
  Option-map-same (some v) = ap some (same v)

  map-same : (l : List N) → map c.fill l ≡ l
  map-same [] = refl
  map-same (v ∷ l) = rw (same v, map-same l)

module _ (w : Wire) (laws : WireLaws w) {M N : Type 0} (c : Codec w N)
    (same : (v : N) → c.fill v ≡ v) {field : Field w M} where
  pub Runs-same? :
      (tag : ℕ) (o : Option N) (set : Option N → M → M) {m : M}
      → ltb tag (2 ^ 32) ≡ true
      → OnOption c.Fits o
      → ((self : Decoder w M) (k : M) (r : Reader w.Byte)
          → field self tag k r ≡ read_message w c.decode r (λ v. set (some v) k))
      → set none m ≡ m
      → Runs w laws field
          (write_message? w c.encode tag o)
          (field_message? w c.bytes tag o)
          m
          (set o m)
  Runs-same? tag o set {m} small fits handle skip =
      subst
        (λ k.
          Runs w laws field (write_message? w c.encode tag o) (field_message? w c.bytes tag o) m
            (set k m))
        (Option-map-same c same o) (Runs-message? w laws c tag o set small fits handle skip)

  pub Runs-same :
      (tag : ℕ) (l : List N) (set : List N → M → M) {m : M}
      → ltb tag (2 ^ 32) ≡ true
      → OnList c.Fits l
      → ((self : Decoder w M) (before : List N) (k : M) (r : Reader w.Byte)
          → field self tag (set before k) r
            ≡ read_message w c.decode r (λ v. set (before ++ (v ∷ [])) k))
      → set [] m ≡ m
      → Runs w laws field
          (write_messages w c.encode tag l)
          (field_messages w c.bytes tag l)
          m
          (set l m)
  Runs-same tag l set {m} small fits handle skip =
      subst
        (λ k.
          Runs w laws field (write_messages w c.encode tag l) (field_messages w c.bytes tag l) m
            (set k m))
        (map-same c same l) (Runs-list w laws c tag l set small fits handle skip)
