-- ===== src/Wire/Carries/Nested.antt =====
-- The bytes of a message inside another, in the generated codecs of web/src/generated.
use sample_grpc_service.Prelude.{
  ℕ, ◌+◌, ◌^◌, ◌<◌, ◌≡◌, ap, Option, some, arith, List, ◌++◌, append_assoc, length, length-append,
}
use sample_grpc_service.Prelude.Outcome.{Outcome, ok}
use sample_grpc_service.Wire.{Wire, WireLaws, Reader, Decoder, Field, decode_loop, read_message}
use sample_grpc_service.Wire.Writes.{field_message, fits_right}
use sample_grpc_service.Wire.Carries.{at, Carries, Carries-field}

module _ (w : Wire) (laws : WireLaws w) where
  pub inner_fits :
      (tag : ℕ) (inner : List w.Byte)
      → length (field_message w tag inner) < 2 ^ 32
      → length inner < 2 ^ 32
  unfolding field_message
  inner_fits tag inner h =
      fits_right _ (w.varint (length inner)) inner (fits_right _ (w.varint tag) _ h)

  module _ {M N : Type 0} (field : Field w M) where
    -- A nested message, read by its own `decode`.
    pub Carries-message :
        (tag : ℕ) (inner : List w.Byte) (m : M) (v : N) (set : N → M)
        (decode : Decoder w M → Reader w.Byte → Option ℕ → Outcome (N × Reader w.Byte))
        → tag < 2 ^ 32
        → length (field_message w tag inner) < 2 ^ 32
        → ((self : Decoder w M) (r : Reader w.Byte)
            → field self tag m r ≡ read_message w (decode self) r set)
        → ((fuel pos : ℕ) (tail : List w.Byte)
            → length inner + length tail < fuel
            → decode (decode_loop w field fuel) (at pos (inner ++ tail)) (some (length inner))
              ≡ ok (v, at (pos + length inner) tail))
        → Carries w laws field (field_message w tag inner) m (set v)
    unfolding field_message
    Carries-message tag inner m v set decode small fits handle read =
        let la = length-append (w.varint tag) (w.varint (length inner) ++ inner) in
        let lb = length-append (w.varint (length inner)) inner in
        Carries-field w laws field tag _ m (set v) small λ fuel pos tail lt. rw (handle _ _) (
          rw (append_assoc (w.varint (length inner)) inner tail) (
            rw (laws.get_uint32_lem (length inner) pos (inner ++ tail) (omega arith)) (
              rw (read fuel (pos + length (w.varint (length inner))) tail (omega arith))
                (ap (λ (q : ℕ). some (ok (set v, at q tail))) (omega arith)))))
