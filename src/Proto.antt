-- ===== src/Proto.antt =====
-- What the messages of web/src/generated/google/protobuf/descriptor.ts call besides the methods in
-- Wire, and the statements that their `encode` and `decode` are made of.
pub mod Laws
pub mod Totals
pub mod Runs
pub mod Packed
pub mod Same
pub mod Kept
pub mod Json
use sample_grpc_service.Prelude.{
  ℕ, zero, suc, ◌+◌, ◌/◌, ◌%◌, String, Bool, true, false, not, ◌&&◌, Option, none, some, List, [],
  ◌∷◌, ◌++◌, ltb, ◌==◌, if◌then◌else◌, length, map, str_eq,
}
use sample_grpc_service.Prelude.Outcome.{Outcome, ok, throw, stuck, error, ◌>>=◌}
use sample_grpc_service.Wire.{Wire, Writer, Reader, bool_bit, for_each}
use sample_grpc_service.Js.{Js}

-- A number is the text that `String(n)` gives for it, with "0" for -0 too; a `Uint8Array` is the
-- list of its bytes.
pub record Runtime : Type 1 where
  pub wire : Wire
  -- The other methods of `BinaryWriter` and `BinaryReader`; a long is read as its `toString()`.
  pub put_int32 : String → Writer wire.Byte → Writer wire.Byte
  pub put_uint64 : String → Writer wire.Byte → Writer wire.Byte
  pub put_int64 : String → Writer wire.Byte → Writer wire.Byte
  pub put_double : String → Writer wire.Byte → Writer wire.Byte
  pub put_bytes : List ℕ → Writer wire.Byte → Writer wire.Byte
  pub get_int32 : Reader wire.Byte → Outcome (String × Reader wire.Byte)
  pub get_uint64 : Reader wire.Byte → Outcome (String × Reader wire.Byte)
  pub get_int64 : Reader wire.Byte → Outcome (String × Reader wire.Byte)
  pub get_double : Reader wire.Byte → Outcome (String × Reader wire.Byte)
  pub get_bytes : Reader wire.Byte → Outcome (List ℕ × Reader wire.Byte)
  -- What the writing methods append.
  pub int32 : String → List wire.Byte
  pub uint64 : String → List wire.Byte
  pub int64 : String → List wire.Byte
  pub double : String → List wire.Byte
  pub raw : List ℕ → List wire.Byte
  -- The numbers that the methods are meant for; of the 64-bit integers, those that are safe, and of
  -- the doubles, the texts that `String(n)` gives for one.
  pub is_int32 : String → Bool
  pub is_uint64 : String → Bool
  pub is_int64 : String → Bool
  pub is_double : String → Bool
  -- `globalThis.Number` of a text, `Math.round` and `<`.
  pub number_of : String → String
  pub round : String → String
  pub less : String → String → Bool
  -- `globalThis.Buffer`: whether it is there, its `from(v, "base64")` and `toString("base64")`;
  -- `atob` and `btoa`, for a binary string the list of its char codes.
  pub has_buffer : Bool
  pub buffer_from : Js → Outcome (List ℕ)
  pub buffer_to : List ℕ → String
  pub atob : Js → Outcome (List ℕ)
  pub btoa : List ℕ → String

abbrev pub are_bytes : List ℕ → Bool
are_bytes [] = true
are_bytes (b ∷ l) = ltb b 256 && are_bytes l

abbrev pub bool_eq : Bool → Bool → Bool
bool_eq true b = b
bool_eq false b = not b

-- A kind of value that one method writes and one reads; `same` is the test of `!== d`.
pub record Scalar (B A : Type 0) : Type 0 where
  pub same : A → A → Bool
  pub put : A → Writer B → Writer B
  pub get : Reader B → Outcome (A × Reader B)
  pub bytes : A → List B

-- `longToNumber`
unfoldable pub long_to_number : Runtime → String → Outcome String
long_to_number e long =
    let num = e.number_of long in
    if e.less "9007199254740991" num
    then throw (error "Value is larger than Number.MAX_SAFE_INTEGER")
    else if e.less num "-9007199254740991"
    then throw (error "Value is smaller than Number.MIN_SAFE_INTEGER")
    else ok num

module _ (e : Runtime) where
  abbrev pub Bytes : Type 0
  Bytes = List e.wire.Byte

  abbrev pub In : Type 0
  In = Reader e.wire.Byte

  abbrev pub Out : Type 0
  Out = Writer e.wire.Byte

  abbrev with_size : Bytes → Bytes
  with_size l = e.wire.varint (length l) ++ l

  abbrev pub text : Scalar e.wire.Byte String
  text = record {
    same = str_eq;
    put = e.wire.put_string;
    get = e.wire.get_string;
    bytes = λ s. with_size (e.wire.utf8 s);
  }

  abbrev pub flag : Scalar e.wire.Byte Bool
  flag = record {
    same = bool_eq;
    put = e.wire.put_bool;
    get = e.wire.get_bool;
    bytes = λ b. e.wire.varint (bool_bit b);
  }

  -- An enum is a number at run time, so it is read and written so.
  abbrev pub int32 : Scalar e.wire.Byte String
  int32 = record { same = str_eq; put = e.put_int32; get = e.get_int32; bytes = e.int32 }

  -- `longToNumber(reader.get())`
  unfoldable pub read_long : (In → Outcome (String × In)) → In → Outcome (String × In)
  unfolding long_to_number
  read_long get r = do (long, r') ← get r; n ← long_to_number e long; ok (n, r')

  abbrev pub uint64 : Scalar e.wire.Byte String
  uint64 = record {
    same = str_eq;
    put = e.put_uint64;
    get = read_long e.get_uint64;
    bytes = e.uint64;
  }

  abbrev pub int64 : Scalar e.wire.Byte String
  int64 = record { same = str_eq; put = e.put_int64; get = read_long e.get_int64; bytes = e.int64 }

  abbrev pub double : Scalar e.wire.Byte String
  double = record { same = str_eq; put = e.put_double; get = e.get_double; bytes = e.double }

  -- The test is `v.length !== 0`.
  abbrev pub raw : Scalar e.wire.Byte (List ℕ)
  raw = record {
    same = λ v d. length v == length d;
    put = e.put_bytes;
    get = e.get_bytes;
    bytes = λ v. with_size (e.raw v);
  }

  module _ {A : Type 0} (s : Scalar e.wire.Byte A) where
    -- `if (v !== undefined && v !== d) { writer.uint32(tag).put(v); }`
    unfoldable pub write_or : ℕ → A → Option A → Out → Out
    write_or tag d none x = x
    write_or tag d (some v) x = if s.same v d then x else s.put v (e.wire.put_uint32 tag x)

    -- `for (const v of l) { writer.uint32(tag).put(v!); }`
    unfoldable pub write_each : ℕ → List A → Out → Out
    write_each tag l x = for_each (λ v y. s.put v (e.wire.put_uint32 tag y)) l x

    -- `writer.uint32(tag).fork(); for (const v of l) { writer.put(v); } writer.join();`
    unfoldable pub write_packed : ℕ → List A → Out → Out
    write_packed tag l x = e.wire.join (for_each s.put l (e.wire.fork (e.wire.put_uint32 tag x)))

    -- `x = reader.get(); continue;`, and `l.push(reader.get()); continue;`
    unfoldable pub read {ℓ} : {M : Type ℓ} → In → (A → M) → Option (Outcome (M × In))
    read r set = some (do (v, r') ← s.get r; ok (set v, r'))

    -- `while (reader.pos < end2) { l.push(reader.get()); }`
    unfoldable pub packed_loop {ℓ} : {M : Type ℓ} → (A → M → M) → ℕ → ℕ → M → In → Outcome (M × In)
    packed_loop push zero end2 m r = stuck
    packed_loop push (suc fuel) end2 m r =
        let rest = (do (v, r') ← s.get r; packed_loop push fuel end2 (push v m) r') in
        if ltb r.pos end2 then rest else ok (m, r)

    -- `const end2 = reader.uint32() + reader.pos;`, the loop, and `continue;`
    unfoldable pub read_packed {ℓ} : {M : Type ℓ} → In → M → (A → M → M) → Option (Outcome (M × In))
    unfolding packed_loop
    read_packed r m push = some (do
      (n, r') ← e.wire.get_uint32 r
      packed_loop push (suc (length r'.rest)) (n + r'.pos) m r')

-- `case n: { if (tag === t) { … continue; } if (tag === u) { … continue; } break; }`
abbrev pub on_either {ℓ} : {A : Type ℓ} → ℕ → ℕ → ℕ → ℕ → Option A → Option A → Option A → Option A
on_either n t u tag one many others =
    if tag / 8 == n then (if tag == t then one else if tag == u then many else none) else others
