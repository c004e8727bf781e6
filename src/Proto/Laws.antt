-- ===== src/Proto/Laws.antt =====
-- What the codecs of web/src/generated/google/protobuf/descriptor.ts rely on in the platform, and
-- the scalars of the wire under it.
use sample_grpc_service.Prelude.{
  ℕ, ◌+◌, ◌^◌, ◌≤◌, ◌<◌, ◌≡◌, ◌≢◌, refl, String, Bool, true, false, List, ◌++◌, length, str_eq,
  arith,
}
use sample_grpc_service.Prelude.Outcome.{Outcome, ok, stuck, throw, ◌>>=◌}
use sample_grpc_service.Wire.{WireLaws, Writer, Reader}
use sample_grpc_service.Wire.Carries.{at}
use sample_grpc_service.Wire.Runs.{Any}
use sample_grpc_service.Wire.Writes.{fits_right}
use sample_grpc_service.Js.{str}
use sample_grpc_service.Proto.{
  Runtime, Scalar, are_bytes, long_to_number, read_long, text, flag, int32, uint64, int64, double,
  raw,
}

-- What `put` writes `get` reads, for the values that fit.
pub record Agrees {B A : Type 0} (s : Scalar B A) (Fits : A → Type 0) : Type 0 where
  pub put_lem :
      (v : A) (x : Writer B)
      → Fits v
      → length (s.bytes v) < 2 ^ 32
      → s.put v x ≡ record x { chunk = x.chunk ++ s.bytes v }
  pub get_lem :
      (v : A) (pos : ℕ) (tail : List B)
      → Fits v
      → length (s.bytes v) < 2 ^ 32
      → s.get (at pos (s.bytes v ++ tail)) ≡ ok (v, at (pos + length (s.bytes v)) tail)
  pub get_advances :
      (r r' : Reader B) (v : A) → s.get r ≡ ok (v, r') → length r'.rest ≤ length r.rest
  pub get_returns : (r : Reader B) → s.get r ≢ stuck

abbrev pub Passes {ℓ} : {A : Type ℓ} → (A → Bool) → A → Type 0
Passes p v = p v ≡ true

-- A scalar with the plain reading of a long, which is its text.
abbrev pub long :
    {B : Type 0}
    → (String → Writer B → Writer B)
    → (Reader B → Outcome (String × Reader B))
    → (String → List B)
    → Scalar B String
long put get bytes = record { same = str_eq; put = put; get = get; bytes = bytes }

-- The documented behaviour of the platform.
pub record RuntimeLaws (e : Runtime) : Type 0 where
  pub wire : WireLaws e.wire
  pub int32_lem : Agrees (int32 e) (Passes e.is_int32)
  pub int32_shrinks :
      (r r' : Reader e.wire.Byte) (v : String)
      → e.get_int32 r ≡ ok (v, r')
      → length r'.rest < length r.rest
  pub uint64_lem : Agrees (long e.put_uint64 e.get_uint64 e.uint64) (Passes e.is_uint64)
  pub int64_lem : Agrees (long e.put_int64 e.get_int64 e.int64) (Passes e.is_int64)
  pub double_lem : Agrees (double e) (Passes e.is_double)
  pub raw_lem : Agrees (raw e) (Passes are_bytes)
  pub number_of_uint64 : (n : String) → e.is_uint64 n ≡ true → e.number_of n ≡ n
  pub number_of_int64 : (n : String) → e.is_int64 n ≡ true → e.number_of n ≡ n
  pub uint64_safe :
      (n : String)
      → e.is_uint64 n ≡ true
      → (e.less "9007199254740991" n ≡ false) × (e.less n "-9007199254740991" ≡ false)
  pub int64_safe :
      (n : String)
      → e.is_int64 n ≡ true
      → (e.less "9007199254740991" n ≡ false) × (e.less n "-9007199254740991" ≡ false)
  pub round_int32 : (n : String) → e.is_int32 n ≡ true → e.round n ≡ n
  pub round_uint64 : (n : String) → e.is_uint64 n ≡ true → e.round n ≡ n
  pub round_int64 : (n : String) → e.is_int64 n ≡ true → e.round n ≡ n
  pub buffer_lem : (v : List ℕ) → are_bytes v ≡ true → e.buffer_from (str (e.buffer_to v)) ≡ ok v
  pub atob_lem : (v : List ℕ) → are_bytes v ≡ true → e.atob (str (e.btoa v)) ≡ ok v

>>=-eq-ok {ℓ κ} :
    {A : Type ℓ} {B : Type κ} (res : Outcome A) (f : A → Outcome B) {b : B}
    → (res >>= f) ≡ ok b
    → (a : A) × (res ≡ ok a) × (f a ≡ ok b)
>>=-eq-ok (ok a) f h = (a, refl, h)
>>=-eq-ok (throw x) f h = absurd (cc h)
>>=-eq-ok stuck f h = absurd (cc h)

>>=-eq-stuck {ℓ κ} :
    {A : Type ℓ} {B : Type κ} (res : Outcome A) (f : A → Outcome B)
    → ((a : A) → f a ≢ stuck)
    → (res >>= f) ≡ stuck
    → res ≡ stuck
>>=-eq-stuck (ok a) f ne h = absurd (ne a h)
>>=-eq-stuck (throw x) f ne h = absurd (cc h)
>>=-eq-stuck stuck f ne h = refl

module _ (e : Runtime) (laws : RuntimeLaws e) where
  pub text_lem : Agrees (text e) Any
  text_lem = record {
    put_lem = λ s x fits small. laws.wire.put_string_lem s x (fits_right _ _ (e.wire.utf8 s) small);
    get_lem = λ s pos tail fits small. laws.wire.get_string_lem s pos tail (fits_right _ _ _ small);
    get_advances = λ r r' s. laws.wire.string_advances r r' s;
    get_returns = λ r. (laws.wire.reads_return r).1;
  }

  pub flag_lem : Agrees (flag e) Any
  flag_lem = record {
    put_lem = λ b x fits small. laws.wire.put_bool_lem b x;
    get_lem = λ b pos tail fits small. laws.wire.get_bool_lem b pos tail;
    get_advances = λ r r' b. laws.wire.bool_advances r r' b;
    get_returns = λ r. (laws.wire.reads_return r).2;
  }

  long_to_number_lem :
      (n : String)
      → e.number_of n ≡ n
      → (e.less "9007199254740991" n ≡ false) × (e.less n "-9007199254740991" ≡ false)
      → long_to_number e n ≡ ok n
  unfolding long_to_number
  long_to_number_lem n same safe = rw (same, safe.0, safe.1)

  long_to_number_returns : (n : String) → long_to_number e n ≢ stuck
  unfolding long_to_number
  long_to_number_returns n h = ground (arith, h)

  -- A reading of a long that goes through `longToNumber`.
  module _ (put : String → Writer e.wire.Byte → Writer e.wire.Byte)
      (get : Reader e.wire.Byte → Outcome (String × Reader e.wire.Byte))
      (bytes : String → List e.wire.Byte) (Fits : String → Type 0)
      (plain : Agrees (long put get bytes) Fits) where
    abbrev checked : Outcome (String × Reader e.wire.Byte) → Outcome (String × Reader e.wire.Byte)
    checked res = do (l, r') ← res; n ← long_to_number e l; ok (n, r')

    checked_advances :
        (k : ℕ) (r' : Reader e.wire.Byte) (v : String) (res : Outcome (String × Reader e.wire.Byte))
        → ((r'' : Reader e.wire.Byte) (l : String) → res ≡ ok (l, r'') → length r''.rest ≤ k)
        → checked res ≡ ok (v, r')
        → length r'.rest ≤ k
    checked_advances k r' v (ok (l, r'')) le h =
        let same = >>=-eq-ok (long_to_number e l) _ h in
        let here : r'' ≡ r' = cc same.2 in rw (← here) (le r'' l refl)
    checked_advances k r' v (throw x) le h = absurd (cc h)
    checked_advances k r' v stuck le h = absurd (cc h)

    checked_returns :
        (res : Outcome (String × Reader e.wire.Byte)) → res ≢ stuck → checked res ≢ stuck
    checked_returns (ok (l, r'')) ne h =
        long_to_number_returns l (>>=-eq-stuck (long_to_number e l) _ (λ a k. cc k) h)
    checked_returns (throw x) ne h = cc h
    checked_returns stuck ne h = ne refl

    checked_lem :
        ((n : String) → Fits n → long_to_number e n ≡ ok n)
        → Agrees (record { same = str_eq; put = put; get = read_long e get; bytes = bytes }) Fits
    unfolding read_long
    checked_lem safe = record {
      put_lem = plain.put_lem;
      get_lem =
          λ n pos tail fits small. rw (plain.get_lem n pos tail fits small) (rw (safe n fits));
      get_advances = λ r r' v.
          checked_advances (length r.rest) r' v (get r) (λ r'' l. plain.get_advances r r'' l);
      get_returns = λ r. checked_returns (get r) (plain.get_returns r);
    }

  pub uint64_lem : Agrees (uint64 e) (Passes e.is_uint64)
  uint64_lem =
      checked_lem e.put_uint64 e.get_uint64 e.uint64 _ laws.uint64_lem
        λ n fits. long_to_number_lem n (laws.number_of_uint64 n fits) (laws.uint64_safe n fits)

  pub int64_lem : Agrees (int64 e) (Passes e.is_int64)
  int64_lem =
      checked_lem e.put_int64 e.get_int64 e.int64 _ laws.int64_lem
        λ n fits. long_to_number_lem n (laws.number_of_int64 n fits) (laws.int64_safe n fits)
