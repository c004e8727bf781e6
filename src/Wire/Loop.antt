-- ===== src/Wire/Loop.antt =====
-- The loop of a generated `decode`: its end.
use sample_grpc_service.Prelude.{
  ℕ, zero, suc, ◌+◌, ◌/◌, ◌%◌, ◌≤◌, ◌<◌, ◌≡◌, ◌≢◌, refl, Bool, ◌||◌, Option, none, some, inl, inr,
  Bool-cases, String, arith, ltb, ◌==◌, length,
}
use sample_grpc_service.Prelude.Outcome.{Outcome, ok, throw, stuck, ◌>>=◌}
use sample_grpc_service.Wire.{
  Wire, WireLaws, Reader, Decoder, Field, on_case, after_switch, decode_loop, decode_with,
  read_string, read_bool, read_message,
}

-- The run returns or throws, and leaves no more than `n` bytes.
abbrev pub Ends {ℓ} : {B : Type 0} {M : Type ℓ} → ℕ → Outcome (M × Reader B) → Type 0
Ends n (ok (m, r)) = length r.rest ≤ n
Ends n (throw e) = Unit
Ends n stuck = ⊥

abbrev pub EndsField : {B M : Type 0} → ℕ → Option (Outcome (M × Reader B)) → Type 0
EndsField n none = Unit
EndsField n (some res) = Ends n res

pub Ends-le :
    {B M : Type 0} (a b : ℕ) (res : Outcome (M × Reader B)) → a ≤ b → Ends a res → Ends b res
Ends-le a b (ok (m, r)) le h = omega arith
Ends-le a b (throw e) le h = tt
Ends-le a b stuck le h = h

-- A read that does not get stuck and gives back no bytes ends.
pub Ends-of_read :
    {B A : Type 0} (n : ℕ) (res : Outcome (A × Reader B))
    → res ≢ stuck
    → ((r' : Reader B) (a : A) → res ≡ ok (a, r') → length r'.rest ≤ n)
    → Ends n res
Ends-of_read n (ok (a, r')) ne h = h r' a refl
Ends-of_read n (throw e) ne h = tt
Ends-of_read n stuck ne h = ne refl

pub Ends-bind :
    {B A M : Type 0} (n : ℕ) (res : Outcome (A × Reader B))
    (f : A × Reader B → Outcome (M × Reader B))
    → Ends n res
    → ((a : A) (r' : Reader B) → length r'.rest ≤ n → Ends n (f (a, r')))
    → Ends n (res >>= f)
Ends-bind n (ok (a, r')) f h k = k a r' h
Ends-bind n (throw e) f h k = tt
Ends-bind n stuck f h k = h

module _ (w : Wire) (laws : WireLaws w) where
  -- The decoder ends wherever at most `n` bytes are left.
  abbrev pub EndsBelow : {M : Type 0} → ℕ → Decoder w M → Type 0
  EndsBelow {M} n self =
      (end : ℕ) (m : M) (r : Reader w.Byte)
      → length r.rest ≤ n
      → Ends (length r.rest) (self end m r)

  -- The cases of a `switch` end, if the rest of the loop does.
  abbrev pub IsTotal : {M : Type 0} → Field w M → Type 0
  IsTotal {M} field =
      (self : Decoder w M) (tag : ℕ) (m : M) (r : Reader w.Byte)
      → EndsBelow (length r.rest) self
      → EndsField (length r.rest) (field self tag m r)

  module _ {M : Type 0} (field : Field w M) (total : IsTotal field) where
    skip-Ends :
        (n t end : ℕ) (self : Decoder w M) (m : M) (res : Outcome (Reader w.Byte))
        → EndsBelow n self
        → res ≢ stuck
        → ((r' : Reader w.Byte) → res ≡ ok r' → length r'.rest ≤ n)
        → Ends n (res >>= λ r'. self end m r')
    skip-Ends n t end self m (ok r') h ne le =
        Ends-le _ n (self end m r') (le r' refl) (h end m r' (le r' refl))
    skip-Ends n t end self m (throw e) h ne le = tt
    skip-Ends n t end self m stuck h ne le = ne refl

    after_switch-Ends :
        (self : Decoder w M) (end tag : ℕ) (m : M) (r : Reader w.Byte)
        (res : Option (Outcome (M × Reader w.Byte)))
        → EndsBelow (length r.rest) self
        → EndsField (length r.rest) res
        → Ends (length r.rest) (after_switch w field self end tag m r res)
    unfolding after_switch
    after_switch-Ends self end tag m r (some handled) h k =
        Ends-bind (length r.rest) handled (λ p. self end p.0 p.1) k
          λ m' r' le. Ends-le _ _ (self end m' r') le (h end m' r' le)
    after_switch-Ends self end tag m r none h k = elim (Bool-cases (tag % 8 == 4 || tag == 0)) [
      | inl leave ↦ rw leave (omega arith)
      | inr go_on ↦ rw go_on (
          skip-Ends (length r.rest) (tag % 8) end self m (w.skip (tag % 8) r) h
            ((laws.reads_return r).3 (tag % 8)) (λ r' e. laws.skip_advances (tag % 8) r r' e))
    ]

    round-Ends :
        (self : Decoder w M) (end : ℕ) (m : M) (r : Reader w.Byte)
        (res : Outcome (ℕ × Reader w.Byte))
        → res ≢ stuck
        → ((n : ℕ) (r' : Reader w.Byte) → res ≡ ok (n, r') → length r'.rest < length r.rest)
        → ((r' : Reader w.Byte) → length r'.rest < length r.rest → EndsBelow (length r'.rest) self)
        → Ends
            (length r.rest)
            (res >>= λ p. after_switch w field self end p.0 m p.1 (field self p.0 m p.1))
    round-Ends self end m r (ok (tag, r')) ne less h =
        let lt = less tag r' refl in
        Ends-le (length r'.rest) (length r.rest) _ (omega arith) (
          after_switch-Ends self end tag m r' (field self tag m r') (h r' lt)
            (total self tag m r' (h r' lt)))
    round-Ends self end m r (throw e) ne less h = tt
    round-Ends self end m r stuck ne less h = ne refl

    pub decode_loop-Ends :
        (fuel end : ℕ) (m : M) (r : Reader w.Byte)
        → length r.rest < fuel
        → Ends (length r.rest) (decode_loop w field fuel end m r)
    unfolding decode_loop
    decode_loop-Ends zero end m r h = absurd (omega arith)
    decode_loop-Ends (suc fuel) end m r h = elim (Bool-cases (ltb r.pos end)) [
      | inl more ↦ rw more (
          round-Ends (decode_loop w field fuel) end m r (w.get_uint32 r) ((laws.reads_return r).0)
            (λ n r' e. laws.uint32_advances r r' n e)
            (λ r' lt end' m' r'' le. decode_loop-Ends fuel end' m' r'' (omega arith)))
      | inr done ↦ rw done (omega arith)
    ]

    -- Every decode returns or throws: the fuel it is given never runs out.
    pub decode_with-Ends :
        (base : M) (r : Reader w.Byte) (len : Option ℕ)
        → Ends (length r.rest) (decode_with w field base r len)
    unfolding decode_with
    decode_with-Ends base r none =
        decode_loop-Ends (suc (length r.rest)) (r.pos + length r.rest) base r (omega arith)
    decode_with-Ends base r (some n) =
        decode_loop-Ends (suc (length r.rest)) (r.pos + n) base r (omega arith)

  -- The readings that the cases are made of.
  module _ {M : Type 0} (r : Reader w.Byte) where
    pub read_string-Ends : (set : String → M) → EndsField (length r.rest) (read_string w r set)
    read_string-Ends set =
        Ends-bind (length r.rest) (w.get_string r) (λ p. ok (set p.0, p.1))
          (Ends-of_read (length r.rest) (w.get_string r) ((laws.reads_return r).1)
            (λ r' s e. laws.string_advances r r' s e))
          (λ a r' le. le)

    pub read_bool-Ends : (set : Bool → M) → EndsField (length r.rest) (read_bool w r set)
    read_bool-Ends set =
        Ends-bind (length r.rest) (w.get_bool r) (λ p. ok (set p.0, p.1))
          (Ends-of_read (length r.rest) (w.get_bool r) ((laws.reads_return r).2)
            (λ r' b e. laws.bool_advances r r' b e))
          (λ a r' le. le)

    pub read_message-Ends :
        {N : Type 0} (decode : Reader w.Byte → Option ℕ → Outcome (N × Reader w.Byte)) (set : N → M)
        → ((r' : Reader w.Byte) (len : Option ℕ)
            → length r'.rest ≤ length r.rest
            → Ends (length r'.rest) (decode r' len))
        → EndsField (length r.rest) (read_message w decode r set)
    read_message-Ends decode set h =
        Ends-bind (length r.rest) (w.get_uint32 r) _
          (Ends-of_read (length r.rest) (w.get_uint32 r) ((laws.reads_return r).0)
            (λ r' n e. let lt = laws.uint32_advances r r' n e in omega arith))
          λ n r' le.
            Ends-bind (length r.rest) (decode r' (some n)) (λ p. ok (set p.0, p.1))
              (Ends-le _ _ (decode r' (some n)) le (h r' (some n) le)) (λ a r'' le'. le')

-- The cases of a switch, one by one.
pub on_case-Ends :
    {B M : Type 0} (n k t tag : ℕ) (handled others : Option (Outcome (M × Reader B)))
    → EndsField n handled
    → EndsField n others
    → EndsField n (on_case k t tag handled others)
on_case-Ends n k t tag handled others h o = elim (Bool-cases (tag / 8 == k)) [
  | inl same ↦ rw same (elim (Bool-cases (tag == t)) [ inl it ↦ rw it h | inr other ↦ rw other tt ])
  | inr other ↦ rw other o
]
