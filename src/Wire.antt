-- ===== src/Wire.antt =====
-- The interface of `@bufbuild/protobuf/wire`, which the generated codecs call, and the parts that
-- every generated `encode` and `decode` of web/src/generated shares.
pub mod Loop
pub mod Carries
pub mod Writes
pub mod Runs
pub mod Cases
pub mod Codec
use sample_grpc_service.Prelude.{
  ℕ, zero, suc, ◌+◌, ◌/◌, ◌%◌, ◌^◌, ◌≤◌, ◌<◌, String, ◌≡◌, ◌≢◌, Bool, true, false, ◌||◌, Option,
  none, some, List, [], ◌∷◌, ◌++◌, ltb, ◌==◌, if◌then◌else◌, length, str_eq,
}
use sample_grpc_service.Prelude.Outcome.{Outcome, ok, stuck, ◌>>=◌}

-- A `BinaryWriter`: the bytes written since the last `fork`, and those under each open fork.
pub record Writer (B : Type 0) : Type 0 where
  pub outer : List (List B)
  pub chunk : List B

-- A `BinaryReader`: its `pos`, and the bytes of its buffer from there on.
pub record Reader (B : Type 0) : Type 0 where
  pub pos : ℕ
  pub rest : List B

pub record Wire : Type 1 where
  pub Byte : Type 0
  pub varint : ℕ → List Byte
  pub utf8 : String → List Byte
  pub put_uint32 : ℕ → Writer Byte → Writer Byte
  pub put_string : String → Writer Byte → Writer Byte
  pub put_bool : Bool → Writer Byte → Writer Byte
  pub fork : Writer Byte → Writer Byte
  pub join : Writer Byte → Writer Byte
  pub finish : Writer Byte → List Byte
  pub get_uint32 : Reader Byte → Outcome (ℕ × Reader Byte)
  pub get_string : Reader Byte → Outcome (String × Reader Byte)
  pub get_bool : Reader Byte → Outcome (Bool × Reader Byte)
  pub skip : ℕ → Reader Byte → Outcome (Reader Byte)

abbrev pub bool_bit : Bool → ℕ
bool_bit true = 1
bool_bit false = 0

-- `new BinaryWriter()`
abbrev pub new_writer : {B : Type 0} → Writer B
new_writer = record { outer = []; chunk = [] }

-- `new BinaryReader(bytes)`
abbrev pub new_reader : {B : Type 0} → List B → Reader B
new_reader bytes = record { pos = 0; rest = bytes }

-- The documented behaviour of the library's methods.
pub record WireLaws (w : Wire) : Type 0 where
  pub put_uint32_lem :
      (n : ℕ) (x : Writer w.Byte)
      → n < 2 ^ 32
      → w.put_uint32 n x ≡ record x { chunk = x.chunk ++ w.varint n }
  pub put_string_lem :
      (s : String) (x : Writer w.Byte)
      → length (w.utf8 s) < 2 ^ 32
      → w.put_string s x
        ≡ record x { chunk = x.chunk ++ (w.varint (length (w.utf8 s)) ++ w.utf8 s) }
  pub put_bool_lem :
      (b : Bool) (x : Writer w.Byte)
      → w.put_bool b x ≡ record x { chunk = x.chunk ++ w.varint (bool_bit b) }
  pub fork_lem : (x : Writer w.Byte) → w.fork x ≡ record { outer = x.chunk ∷ x.outer; chunk = [] }
  pub join_lem :
      (above : List w.Byte) (outer : List (List w.Byte)) (inner : List w.Byte)
      → length inner < 2 ^ 32
      → w.join (record { outer = above ∷ outer; chunk = inner })
        ≡ record { outer = outer; chunk = above ++ (w.varint (length inner) ++ inner) }
  pub finish_lem : (bytes : List w.Byte) → w.finish (record { outer = []; chunk = bytes }) ≡ bytes
  pub get_uint32_lem :
      (n pos : ℕ) (tail : List w.Byte)
      → n < 2 ^ 32
      → w.get_uint32 (record { pos = pos; rest = w.varint n ++ tail })
        ≡ ok (n, record { pos = pos + length (w.varint n); rest = tail })
  pub get_string_lem :
      (s : String) (pos : ℕ) (tail : List w.Byte)
      → length (w.utf8 s) < 2 ^ 32
      → w.get_string
          (record { pos = pos; rest = (w.varint (length (w.utf8 s)) ++ w.utf8 s) ++ tail })
        ≡ ok (
          s,
          record { pos = pos + length (w.varint (length (w.utf8 s)) ++ w.utf8 s); rest = tail },
        )
  pub get_bool_lem :
      (b : Bool) (pos : ℕ) (tail : List w.Byte)
      → w.get_bool (record { pos = pos; rest = w.varint (bool_bit b) ++ tail })
        ≡ ok (b, record { pos = pos + length (w.varint (bool_bit b)); rest = tail })
  pub uint32_advances :
      (r r' : Reader w.Byte) (n : ℕ) → w.get_uint32 r ≡ ok (n, r') → length r'.rest < length r.rest
  pub string_advances :
      (r r' : Reader w.Byte) (s : String)
      → w.get_string r ≡ ok (s, r')
      → length r'.rest ≤ length r.rest
  pub bool_advances :
      (r r' : Reader w.Byte) (b : Bool) → w.get_bool r ≡ ok (b, r') → length r'.rest ≤ length r.rest
  pub skip_advances :
      (t : ℕ) (r r' : Reader w.Byte) → w.skip t r ≡ ok r' → length r'.rest ≤ length r.rest
  pub reads_return :
      (r : Reader w.Byte)
      → (w.get_uint32 r ≢ stuck)
        × (w.get_string r ≢ stuck)
        × (w.get_bool r ≢ stuck)
        × ((t : ℕ) → w.skip t r ≢ stuck)

-- `case n: { if (tag !== t) { break; } … continue; }`, before the cases that follow.
abbrev pub on_case {ℓ} : {A : Type ℓ} → ℕ → ℕ → ℕ → Option A → Option A → Option A
on_case n t tag handled others =
    if tag / 8 == n then (if tag == t then handled else none) else others

-- One `case` before the cases that follow.
infixr 2 ◌◃◌
abbrev pub ◌◃◌ {ℓ κ} : {A : Type ℓ} {B : Type κ} → (A → B) → A → B
f ◃ x = f x

-- `for (const v of l) { f(v); }`, on a state
abbrev pub for_each {ℓ κ} : {A : Type ℓ} {S : Type κ} → (A → S → S) → List A → S → S
for_each f [] x = x
for_each f (v ∷ l) x = for_each f l (f v x)

-- Statements in sequence, each on what the one before left.
infixl 2 ◌▸◌
abbrev pub ◌▸◌ {ℓ κ} : {A : Type ℓ} {B : Type κ} → A → (A → B) → B
x ▸ f = f x

module _ (w : Wire) where
  -- `if (s !== "") { writer.uint32(tag).string(s); }`
  unfoldable pub write_string : ℕ → String → Writer w.Byte → Writer w.Byte
  write_string tag s x = if str_eq s "" then x else w.put_string s (w.put_uint32 tag x)

  -- `if (s !== undefined) { writer.uint32(tag).string(s); }`
  unfoldable pub write_string? : ℕ → Option String → Writer w.Byte → Writer w.Byte
  write_string? tag none x = x
  write_string? tag (some s) x = w.put_string s (w.put_uint32 tag x)

  -- `if (b !== false) { writer.uint32(tag).bool(b); }`
  unfoldable pub write_bool : ℕ → Bool → Writer w.Byte → Writer w.Byte
  write_bool tag b x = if b then w.put_bool b (w.put_uint32 tag x) else x

  -- `M.encode(m, writer.uint32(tag).fork()).join();`
  unfoldable pub write_message {ℓ} :
      {M : Type ℓ} → (M → Writer w.Byte → Writer w.Byte) → ℕ → M → Writer w.Byte → Writer w.Byte
  write_message encode tag m x = w.join (encode m (w.fork (w.put_uint32 tag x)))

  -- `if (m !== undefined) { M.encode(m, writer.uint32(tag).fork()).join(); }`
  unfoldable pub write_message? {ℓ} :
      {M : Type ℓ}
      → (M → Writer w.Byte → Writer w.Byte)
      → ℕ
      → Option M
      → Writer w.Byte
      → Writer w.Byte
  unfolding write_message
  write_message? encode tag none x = x
  write_message? encode tag (some m) x = write_message encode tag m x

  -- `for (const v of l) { M.encode(v, writer.uint32(tag).fork()).join(); }`
  unfoldable pub write_messages {ℓ} :
      {M : Type ℓ}
      → (M → Writer w.Byte → Writer w.Byte)
      → ℕ
      → List M
      → Writer w.Byte
      → Writer w.Byte
  write_messages encode tag l x = for_each (write_message encode tag) l x

  -- What a `decode` does from inside its loop: the end, the message so far and the reader.
  abbrev pub Decoder : Type 0 → Type 0
  Decoder M = ℕ → M → Reader w.Byte → Outcome (M × Reader w.Byte)

  -- The `switch` of a loop: `some` where a case ends in `continue`, `none` where the switch is left.
  abbrev pub Field : Type 0 → Type 0
  Field M = Decoder M → ℕ → M → Reader w.Byte → Option (Outcome (M × Reader w.Byte))

  module _ {M : Type 0} (field : Field M) where
    -- What follows the `switch`: a handled field goes on, an end of group or a zero tag ends the
    -- loop, any other field is skipped.
    after_switch :
        Decoder M
        → ℕ
        → ℕ
        → M
        → Reader w.Byte
        → Option (Outcome (M × Reader w.Byte))
        → Outcome (M × Reader w.Byte)
    after_switch self end tag m r (some handled) = do (m', r') ← handled; self end m' r'
    after_switch self end tag m r none =
        if tag % 8 == 4 || tag == 0 then ok (m, r) else do r' ← w.skip (tag % 8) r; self end m r'

    -- One round of `while (reader.pos < end)`; `self` is the rest of the loop.
    decode_round : Decoder M → Decoder M
    unfolding after_switch
    decode_round self end m r =
        if ltb r.pos end
        then (do (tag, r') ← w.get_uint32 r; after_switch self end tag m r' (field self tag m r'))
        else ok (m, r)

    unfoldable pub decode_loop : ℕ → Decoder M
    unfolding decode_round
    decode_loop zero end m r = stuck
    decode_loop (suc fuel) end m r = decode_round (decode_loop fuel) end m r

    -- `decode(input, length)`; each round takes a byte at least.
    unfoldable pub decode_with : M → Reader w.Byte → Option ℕ → Outcome (M × Reader w.Byte)
    unfolding decode_loop
    decode_with base r none = decode_loop (suc (length r.rest)) (r.pos + length r.rest) base r
    decode_with base r (some n) = decode_loop (suc (length r.rest)) (r.pos + n) base r

  -- `x = reader.string(); continue;`, and so for a bool and for a message.
  abbrev pub read_string {ℓ} :
      {M : Type ℓ} → Reader w.Byte → (String → M) → Option (Outcome (M × Reader w.Byte))
  read_string r set = some (do (s, r') ← w.get_string r; ok (set s, r'))

  abbrev pub read_bool {ℓ} :
      {M : Type ℓ} → Reader w.Byte → (Bool → M) → Option (Outcome (M × Reader w.Byte))
  read_bool r set = some (do (b, r') ← w.get_bool r; ok (set b, r'))

  abbrev pub read_message {ℓ κ} :
      {M : Type ℓ} {N : Type κ}
      → (Reader w.Byte → Option ℕ → Outcome (N × Reader w.Byte))
      → Reader w.Byte
      → (N → M)
      → Option (Outcome (M × Reader w.Byte))
  read_message decode r set =
      some (do (n, r') ← w.get_uint32 r; (v, r'') ← decode r' (some n); ok (set v, r''))
