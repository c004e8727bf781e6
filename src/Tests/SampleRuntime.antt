-- ===== src/Tests/SampleRuntime.antt =====
-- A platform under the messages of web/src/generated/google/protobuf/descriptor.ts: a number is sent
-- as its text, and a byte is spelled in unary.
use sample_grpc_service.Prelude.{
  ℕ, zero, suc, ◌+◌, ◌≤◌, ◌≡◌, ◌≢◌, refl, ◌∙◌, true, false, Option, none, some, List, [], ◌∷◌, ◌++◌,
  String, arith, ◌==◌, if◌then◌else◌, length, inl, inr, Option-cases, ap, map,
}
use sample_grpc_service.Prelude.Outcome.{Outcome, ok, throw, stuck, wire_error, type_error}
use sample_grpc_service.Wire.{Reader}
use sample_grpc_service.Wire.Writes.{fits_right}
use sample_grpc_service.Js.{Js, str}
use sample_grpc_service.Proto.{Runtime, text}
use sample_grpc_service.Proto.Laws.{RuntimeLaws, Agrees, Passes}
use sample_grpc_service.Tests.SampleWire.{Sym, num, chr, sample_wire, get_num}
use sample_grpc_service.Tests.SampleWire.Laws.{sample_laws, string_advances}
use Prim.Native.Char.{code}

take_bytes : ℕ → List Sym → Option (List ℕ × List Sym)
take_bytes zero l = some ([], l)
take_bytes (suc n) [] = none
take_bytes (suc n) (chr c ∷ l) = none
take_bytes (suc n) (num b ∷ l) = elim (take_bytes n l) [
  | none ↦ none
  | some p ↦ some (b ∷ p.0, p.1)
]

bytes_result : ℕ → Option (List ℕ × List Sym) → Outcome (List ℕ × Reader Sym)
bytes_result pos none = throw (wire_error "premature EOF")
bytes_result pos (some p) = ok (p.0, record { pos = pos; rest = p.1 })

bytes_behind : Outcome (ℕ × Reader Sym) → Outcome (List ℕ × Reader Sym)
unfolding bytes_result take_bytes
bytes_behind (ok (n, r)) = bytes_result (r.pos + n) (take_bytes n r.rest)
bytes_behind (throw e) = throw e
bytes_behind stuck = stuck

ones : ℕ → String → String
ones zero s = String.◌∷◌ "0" s
ones (suc n) s = String.◌∷◌ "1" (ones n s)

spelled : List ℕ → String
unfolding ones
spelled [] = ""
spelled (b ∷ l) = ones b (spelled l)

read_ones : ℕ → String → List ℕ
read_ones k String.[] = []
read_ones k (String.◌∷◌ c s) =
    let more = read_ones (suc k) s in
    let rest = read_ones 0 s in if code c == 49 then more else k ∷ rest

from_text : Js → Outcome (List ℕ)
unfolding read_ones
from_text (str s) = ok (read_ones 0 s)
from_text _ = throw (type_error "not a text")

unfoldable pub sample_runtime : Runtime
unfolding sample_wire get_num bytes_behind spelled from_text
sample_runtime = record {
  wire = sample_wire;
  put_int32 = sample_wire.put_string;
  put_uint64 = sample_wire.put_string;
  put_int64 = sample_wire.put_string;
  put_double = sample_wire.put_string;
  put_bytes = λ l x. record x { chunk = x.chunk ++ (num (length l) ∷ map num l) };
  get_int32 = sample_wire.get_string;
  get_uint64 = sample_wire.get_string;
  get_int64 = sample_wire.get_string;
  get_double = sample_wire.get_string;
  get_bytes = λ r. bytes_behind (get_num r.pos r.rest);
  int32 = λ s. num (length (sample_wire.utf8 s)) ∷ sample_wire.utf8 s;
  uint64 = λ s. num (length (sample_wire.utf8 s)) ∷ sample_wire.utf8 s;
  int64 = λ s. num (length (sample_wire.utf8 s)) ∷ sample_wire.utf8 s;
  double = λ s. num (length (sample_wire.utf8 s)) ∷ sample_wire.utf8 s;
  raw = map num;
  is_int32 = λ n. true;
  is_double = λ n. true;
  is_uint64 = λ n. true;
  is_int64 = λ n. true;
  number_of = λ n. n;
  round = λ n. n;
  less = λ n k. false;
  has_buffer = true;
  buffer_from = from_text;
  buffer_to = spelled;
  atob = from_text;
  btoa = spelled;
}

length-map_num : (l : List ℕ) → length (map num l) ≡ length l
length-map_num [] = refl
length-map_num (b ∷ l) = rw (length-map_num l)

take_bytes_lem :
    (l : List ℕ) (tail : List Sym) → take_bytes (length l) (map num l ++ tail) ≡ some (l, tail)
unfolding take_bytes
take_bytes_lem [] tail = refl
take_bytes_lem (b ∷ l) tail = rw (take_bytes_lem l tail)

take_bytes_advances :
    (n : ℕ) (l l' : List Sym) (v : List ℕ) → take_bytes n l ≡ some (v, l') → length l' ≤ length l
unfolding take_bytes
take_bytes_advances zero l l' v h = ground (arith, h)
take_bytes_advances (suc n) [] l' v h = absurd (cc h)
take_bytes_advances (suc n) (chr c ∷ l) l' v h = absurd (cc h)
take_bytes_advances (suc n) (num k ∷ l) l' v h = elim (Option-cases (take_bytes n l)) [
  | inl missing ↦ absurd (cc (rw missing at h))
  | inr (p, e) ↦
      let le = take_bytes_advances n l p.1 p.0 e in
      let same : p.1 ≡ l' = cc (rw e at h) in ground (arith, le, same)
]

bytes_advances :
    (pos : ℕ) (l : List Sym) (r' : Reader Sym) (v : List ℕ)
    → bytes_behind (get_num pos l) ≡ ok (v, r')
    → length r'.rest ≤ length l
unfolding get_num bytes_behind bytes_result
bytes_advances pos [] r' v h = absurd (cc h)
bytes_advances pos (chr c ∷ l) r' v h = absurd (cc h)
bytes_advances pos (num n ∷ l) r' v h = elim (Option-cases (take_bytes n l)) [
  | inl missing ↦ absurd (cc (rw missing at h))
  | inr (p, e) ↦
      let le = take_bytes_advances n l p.1 p.0 e in
      let same : record { pos = pos + 1 + n; rest = p.1 } ≡ r' = cc (rw e at h) in
      ground (arith, le, same)
]

bytes_result_returns : (pos : ℕ) (o : Option (List ℕ × List Sym)) → bytes_result pos o ≢ stuck
unfolding bytes_result
bytes_result_returns pos none h = cc h
bytes_result_returns pos (some p) h = cc h

bytes_return : (pos : ℕ) (l : List Sym) → bytes_behind (get_num pos l) ≢ stuck
unfolding get_num bytes_behind
bytes_return pos [] h = cc h
bytes_return pos (num n ∷ l) h = bytes_result_returns (pos + 1 + n) (take_bytes n l) h
bytes_return pos (chr c ∷ l) h = cc h

read_ones-ones : (k b : ℕ) (s : String) → read_ones k (ones b s) ≡ (k + b) ∷ read_ones 0 s
unfolding read_ones ones
read_ones-ones k zero s = ap (λ (n : ℕ). n ∷ read_ones 0 s) {x = k} {y = k + 0} (omega arith)
read_ones-ones k (suc b) s =
    rw (read_ones-ones (suc k) b s) (ap (λ (n : ℕ). n ∷ read_ones 0 s) (omega arith))

read_ones-spelled : (l : List ℕ) → read_ones 0 (spelled l) ≡ l
unfolding spelled read_ones
read_ones-spelled [] = refl
read_ones-spelled (b ∷ l) =
    read_ones-ones 0 b (spelled l)
    ∙ ap (λ (n : ℕ). n ∷ read_ones 0 (spelled l)) {x = 0 + b} {y = b} (omega arith)
    ∙ ap (λ (v : List ℕ). b ∷ v) (read_ones-spelled l)

number_lem : Agrees (text sample_runtime) (Passes (λ s. true))
unfolding sample_wire sample_runtime
number_lem = record {
  put_lem = λ s x fits small. refl;
  get_lem = λ s pos tail fits small.
      sample_laws.get_string_lem s pos tail
        (fits_right _ (num (length (sample_wire.utf8 s)) ∷ []) (sample_wire.utf8 s) small);
  get_advances = λ r r' s. sample_laws.string_advances r r' s;
  get_returns = λ r. (sample_laws.reads_return r).1;
}

pub sample_runtime_laws : RuntimeLaws sample_runtime
unfolding sample_wire sample_runtime from_text bytes_behind get_num bytes_result
sample_runtime_laws = record {
  wire = sample_laws;
  int32_lem = number_lem;
  int32_shrinks = λ r r' v h. string_advances r.pos r.rest r' v h;
  uint64_lem = number_lem;
  int64_lem = number_lem;
  double_lem = number_lem;
  raw_lem = record {
    put_lem = λ l x fits small. rw (length-map_num l);
    get_lem = λ l pos tail fits small. rw (length-map_num l) (
        rw (take_bytes_lem l tail)
          (ap (λ (p : ℕ). ok (l, record { pos = p; rest = tail })) (omega arith)));
    get_advances = λ r r' v h. bytes_advances r.pos r.rest r' v h;
    get_returns = λ r. bytes_return r.pos r.rest;
  };
  number_of_uint64 = λ n h. refl;
  number_of_int64 = λ n h. refl;
  uint64_safe = λ n h. (refl, refl);
  int64_safe = λ n h. (refl, refl);
  round_int32 = λ n h. refl;
  round_uint64 = λ n h. refl;
  round_int64 = λ n h. refl;
  buffer_lem = λ l h. ap ok (read_ones-spelled l);
  atob_lem = λ l h. ap ok (read_ones-spelled l);
}
