-- ===== src/GoogleApi/HttpRule/RoundTrip.antt =====
-- `encode` and `decode` of HttpRule in web/src/generated/google/api/http.ts:
-- the bytes of a message, and the loop over them.
use sample_grpc_service.Prelude.{
  ℕ, ◌^◌, ◌<◌, ◌≤◌, ◌≡◌, refl, sym, ap, subst, Option, none, some, List, [], ◌++◌, length, arith,
}
use sample_grpc_service.Prelude.Outcome.{ok}
use sample_grpc_service.Wire.{
  Wire, WireLaws, Reader, Decoder, ◌◃◌, decode_with, new_writer, new_reader, write_message,
}
use sample_grpc_service.Wire.Loop.{Ends, IsTotal, read_message-Ends}
use sample_grpc_service.Wire.Writes.{
  Writes, Writes-nil, Writes-then, Writes-message, field_message, fits_left, fits_right,
}
use sample_grpc_service.Wire.Carries.{at, Carries, Carries-nil, Carries-then, decode_loop-Carries}
use sample_grpc_service.Wire.Carries.Nested.{Carries-message, inner_fits}
use sample_grpc_service.GoogleApi.HttpRule.Fields.{Plain}
use sample_grpc_service.GoogleApi.HttpRule.{
  HttpRule, rule, Rules, none_left, first, push, push_binding, create_base, encode_plain, encode,
  encode_bindings, decode_inside, field, decode,
}
use sample_grpc_service.GoogleApi.CustomHttpPattern.RoundTrip as PatternRoundTrip
use sample_grpc_service.GoogleApi.HttpRule.PlainTrip.{plain_bytes, Runs-plain}
use sample_grpc_service.Wire.Cases.{no_case, some_case, string_case}
use sample_grpc_service.Wire.Runs.{Any, Runs}
use sample_grpc_service.Wire.Codec.{Codec, codec_of, decode_encoded, message-Ends}

append : Rules → Rules → Rules
append none_left l = l
append (first v k) l = first v (append k l)

append-push : (k : Rules) (v : HttpRule) (l : Rules) → append (push k v) l ≡ append k (first v l)
unfolding append
append-push none_left v l = refl
append-push (first u k) v l = ap (first u) (append-push k v l)

append-none_left : (k : Rules) → append k none_left ≡ k
unfolding append
append-none_left none_left = refl
append-none_left (first u k) = ap (first u) (append-none_left k)

module _ (w : Wire) where
  unfoldable mutual
    pub bytes : HttpRule → List w.Byte
    bytes (rule p bindings) = plain_bytes w p ++ bindings_bytes bindings

    pub bindings_bytes : Rules → List w.Byte
    bindings_bytes none_left = []
    bindings_bytes (first v rules) = field_message w 90 (bytes v) ++ bindings_bytes rules

  module _ (laws : WireLaws w) where
    mutual
      unfolding encode bytes write_message

      Writes-rule : (m : HttpRule) → Writes w (encode w m) (bytes m)
      Writes-rule (rule p bindings) =
          Writes-then w (encode_plain w p) (encode_bindings w bindings) (plain_bytes w p)
            (bindings_bytes bindings) (Runs-plain w laws p).writes (Writes-bindings bindings)

      Writes-bindings : (l : Rules) → Writes w (encode_bindings w l) (bindings_bytes l)
      Writes-bindings none_left = Writes-nil w
      Writes-bindings (first v rules) =
          Writes-then w (λ x. w.join (encode w v (w.fork (w.put_uint32 90 x))))
            (encode_bindings w rules) (field_message w 90 (bytes v)) (bindings_bytes rules)
            (Writes-message w laws (encode w) 90 v (bytes v) (omega arith) (Writes-rule v))
            (Writes-bindings rules)

    mutual
      unfolding bytes field create_base append

      Carries-rule :
          (m : HttpRule)
          → length (bytes m) < 2 ^ 32
          → Carries w laws (field w) (bytes m) create_base m
      Carries-rule (rule p bindings) h =
          Carries-then w laws (field w) (plain_bytes w p) (bindings_bytes bindings) create_base
            (rule p none_left) (rule p bindings)
            ((Runs-plain w laws p).carries
              (fits_left (2 ^ 32) (plain_bytes w p) (bindings_bytes bindings) h))
            (Carries-bindings bindings p none_left
              (fits_right (2 ^ 32) (plain_bytes w p) (bindings_bytes bindings) h))

      Carries-bindings :
          (l : Rules) (p : Plain) (before : Rules)
          → length (bindings_bytes l) < 2 ^ 32
          → Carries w laws (field w) (bindings_bytes l) (rule p before) (rule p (append before l))
      Carries-bindings none_left p before h =
          subst (λ k. Carries w laws (field w) [] (rule p before) (rule p k))
            (sym (append-none_left before)) (Carries-nil w laws (field w) (rule p before))
      Carries-bindings (first v rules) p before h =
          let a = field_message w 90 (bytes v) in
          let b = bindings_bytes rules in
          let fits = fits_left (2 ^ 32) a b h in
          let inner = inner_fits w laws 90 (bytes v) fits in
          Carries-then w laws (field w) a b (rule p before) (rule p (push before v))
            (rule p (append before (first v rules)))
            (Carries-message w laws (field w) 90 (bytes v) (rule p before) v
              (push_binding (rule p before)) (decode_inside w) (omega arith) fits (λ self r. refl)
              (λ fuel pos tail lt.
                decode_loop-Carries w laws (field w) create_base v (bytes v) pos fuel tail lt
                  (Carries-rule v inner)))
            (subst (λ k. Carries w laws (field w) b (rule p (push before v)) (rule p k))
              (append-push before v rules)
              (Carries-bindings rules p (push before v) (fits_right (2 ^ 32) a b h)))

    decode_inside-Ends :
        (self : Decoder w HttpRule) (n : ℕ)
        → ((end : ℕ) (m : HttpRule) (r : Reader w.Byte)
            → length r.rest ≤ n
            → Ends (length r.rest) (self end m r))
        → (r : Reader w.Byte) (len : Option ℕ) → length r.rest ≤ n
        → Ends (length r.rest) (decode_inside w self r len)
    decode_inside-Ends self n h r none le = h _ create_base r le
    decode_inside-Ends self n h r (some k) le = h _ create_base r le

    pub IsTotal-field : IsTotal w laws (field w)
    unfolding field
    IsTotal-field self tag m r h =
        (string_case w laws r 1 10 tag _
          ◃ string_case w laws r 2 18 tag _
          ◃ string_case w laws r 3 26 tag _
          ◃ string_case w laws r 4 34 tag _
          ◃ string_case w laws r 5 42 tag _
          ◃ string_case w laws r 6 50 tag _
          ◃ some_case r 8 66 tag _ (message-Ends w laws (PatternRoundTrip.codec w laws) r _)
          ◃ string_case w laws r 7 58 tag _
          ◃ string_case w laws r 12 98 tag _
          ◃ some_case r 11 90 tag _ (
              read_message-Ends w laws r (decode_inside w self) _
                (decode_inside-Ends self (length r.rest) h))
          ◃ no_case).ends

    pub runs : (m : HttpRule) → Any m → Runs w laws (field w) (encode w m) (bytes m) create_base m
    runs m fits = record { writes = Writes-rule m; carries = Carries-rule m }

    pub decode-loop :
        (r : Reader w.Byte) (len : Option ℕ)
        → decode w r len ≡ decode_with w (field w) create_base r len
    unfolding decode
    decode-loop r len = refl

    abbrev pub codec : Codec w HttpRule
    codec =
        codec_of w laws (encode w) (decode w) (field w) create_base bytes (λ m. m) Any decode-loop
          runs IsTotal-field

    -- Decoding the whole of the bytes that `encode` writes for a message of HttpRule on a new
    -- writer gives back the message and leaves the reader at the end, over any wire library with
    -- the documented laws, as long as the encoding is shorter than 2^32 bytes.
    pub http_rule_decode-encode :
        (m : HttpRule)
        → length (bytes m) < 2 ^ 32
        → decode w (new_reader (w.finish (encode w m new_writer))) none
          ≡ ok (m, at (length (bytes m)) [])
    http_rule_decode-encode m h = decode_encoded w laws codec m tt h

    -- `decode` of HttpRule ends on every input: over any wire library with the documented laws,
    -- for each reader and each length or none, it returns or throws, its loop never runs out of
    -- fuel, and the reader that it leaves has no more bytes than the one it got.
    pub http_rule_decode-Ends :
        (r : Reader w.Byte) (len : Option ℕ) → Ends (length r.rest) (decode w r len)
    http_rule_decode-Ends r len = codec.decode_ends r len
