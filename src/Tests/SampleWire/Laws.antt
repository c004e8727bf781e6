-- ===== src/Tests/SampleWire/Laws.antt =====
-- The laws of the sample wire library.
use sample_grpc_service.Prelude.{
  ℕ, zero, suc, ◌+◌, ◌≤◌, ◌<◌, ◌≡◌, ◌≢◌, refl, Bool, true, false, Option, none, some, List, [], ◌∷◌,
  ◌++◌, String, arith, ◌==◌, length, inl, inr, Bool-cases, Option-cases, ap,
}
use sample_grpc_service.Prelude.Outcome.{ok, stuck}
use sample_grpc_service.Wire.{WireLaws, Reader, bool_bit}
use sample_grpc_service.Tests.SampleWire.{
  get_num, take_text, drop_exact, text_result, text_behind, is_true, skipped, skip_behind, skip_by,
  join_onto, symbols, at, Sym, num, chr, sample_wire,
}

take_text_lem :
    (s : String) (tail : List Sym)
    → take_text (length (symbols s)) (symbols s ++ tail) ≡ some (s, tail)
unfolding take_text
take_text_lem String.[] tail = refl
take_text_lem (String.◌∷◌ c s) tail = rw (take_text_lem s tail)

pub get_num_advances :
    (pos : ℕ) (l : List Sym) (r' : Reader Sym) (n : ℕ)
    → get_num pos l ≡ ok (n, r')
    → length r'.rest < length l
unfolding get_num
get_num_advances pos [] r' n h = absurd (cc h)
get_num_advances pos (num k ∷ l) r' n h = ground (arith, h)
get_num_advances pos (chr c ∷ l) r' n h = absurd (cc h)

take_text_advances :
    (n : ℕ) (l l' : List Sym) (s : String) → take_text n l ≡ some (s, l') → length l' ≤ length l
unfolding take_text
take_text_advances zero l l' s h = ground (arith, h)
take_text_advances (suc n) [] l' s h = absurd (cc h)
take_text_advances (suc n) (num k ∷ l) l' s h = absurd (cc h)
take_text_advances (suc n) (chr c ∷ l) l' s h = elim (Option-cases (take_text n l)) [
  | inl missing ↦ absurd (cc (rw missing at h))
  | inr (p, e) ↦
      let le = take_text_advances n l p.1 p.0 e in
      let same : p.1 ≡ l' = cc (rw e at h) in ground (arith, le, same)
]

drop_exact_advances : (n : ℕ) (l l' : List Sym) → drop_exact n l ≡ some l' → length l' ≤ length l
unfolding drop_exact
drop_exact_advances zero l l' h = ground (arith, h)
drop_exact_advances (suc n) [] l' h = absurd (cc h)
drop_exact_advances (suc n) (x ∷ l) l' h = let le = drop_exact_advances n l l' h in omega arith

skipped_advances :
    (pos n : ℕ) (l : List Sym) (r' : Reader Sym)
    → skipped pos (drop_exact n l) ≡ ok r'
    → length r'.rest ≤ length l
unfolding skipped
skipped_advances pos n l r' h = elim (Option-cases (drop_exact n l)) [
  | inl missing ↦ absurd (cc (rw missing at h))
  | inr (l', e) ↦
      let le = drop_exact_advances n l l' e in
      let same : at pos l' ≡ r' = cc (rw e at h) in ground (arith, le, same)
]

skipped_returns : (pos : ℕ) (o : Option (List Sym)) → skipped pos o ≢ stuck
unfolding skipped
skipped_returns pos none h = cc h
skipped_returns pos (some l) h = cc h

text_result_returns : (pos : ℕ) (o : Option (String × List Sym)) → text_result pos o ≢ stuck
unfolding text_result
text_result_returns pos none h = cc h
text_result_returns pos (some p) h = cc h

get_num_returns : (pos : ℕ) (l : List Sym) → get_num pos l ≢ stuck
unfolding get_num
get_num_returns pos [] h = cc h
get_num_returns pos (num n ∷ l) h = cc h
get_num_returns pos (chr c ∷ l) h = cc h

string_returns : (pos : ℕ) (l : List Sym) → text_behind l (get_num pos l) ≢ stuck
unfolding get_num text_behind
string_returns pos [] h = cc h
string_returns pos (num n ∷ l) h = text_result_returns (pos + 1 + n) (take_text n l) h
string_returns pos (chr c ∷ l) h = cc h

bool_returns : (pos : ℕ) (l : List Sym) → is_true (get_num pos l) ≢ stuck
unfolding get_num is_true
bool_returns pos [] h = cc h
bool_returns pos (num n ∷ l) h = cc h
bool_returns pos (chr c ∷ l) h = cc h

skip_behind_returns : (pos : ℕ) (l : List Sym) → skip_behind (get_num pos l) ≢ stuck
unfolding get_num skip_behind
skip_behind_returns pos [] h = cc h
skip_behind_returns pos (num n ∷ l) h = skipped_returns (pos + 1 + n) (drop_exact n l) h
skip_behind_returns pos (chr c ∷ l) h = cc h

skip_returns : (t : ℕ) (r : Reader Sym) → skip_by t r ≢ stuck
unfolding skip_by
skip_returns t r h = elim (Bool-cases (t == 0)) [
  | inl a ↦ skipped_returns _ _ (rw a at h)
  | inr a ↦ elim (Bool-cases (t == 1)) [
    | inl b ↦ skipped_returns _ _ (rw (a, b) at h)
    | inr b ↦ elim (Bool-cases (t == 2)) [
      | inl c ↦ skip_behind_returns r.pos r.rest (rw (a, b, c) at h)
      | inr c ↦ elim (Bool-cases (t == 5)) [
        | inl d ↦ skipped_returns _ _ (rw (a, b, c, d) at h)
        | inr d ↦ cc (rw (a, b, c, d) at h)
      ]
    ]
  ]
]

pub string_advances :
    (pos : ℕ) (l : List Sym) (r' : Reader Sym) (s : String)
    → text_behind l (get_num pos l) ≡ ok (s, r')
    → length r'.rest < length l
unfolding get_num text_behind text_result
string_advances pos [] r' s h = absurd (cc h)
string_advances pos (chr c ∷ l) r' s h = absurd (cc h)
string_advances pos (num n ∷ l) r' s h = elim (Option-cases (take_text n l)) [
  | inl missing ↦ absurd (cc (rw missing at h))
  | inr (p, e) ↦
      let le = take_text_advances n l p.1 p.0 e in
      let same : at (pos + 1 + n) p.1 ≡ r' = cc (rw e at h) in ground (arith, le, same)
]

bool_advances :
    (pos : ℕ) (l : List Sym) (r' : Reader Sym) (b : Bool)
    → is_true (get_num pos l) ≡ ok (b, r')
    → length r'.rest ≤ length l
unfolding get_num is_true
bool_advances pos [] r' b h = absurd (cc h)
bool_advances pos (chr c ∷ l) r' b h = absurd (cc h)
bool_advances pos (num n ∷ l) r' b h = let same : at (pos + 1) l ≡ r' = cc h in ground (arith, same)

skip_behind_advances :
    (pos : ℕ) (l : List Sym) (r' : Reader Sym)
    → skip_behind (get_num pos l) ≡ ok r'
    → length r'.rest ≤ length l
unfolding get_num skip_behind
skip_behind_advances pos [] r' h = absurd (cc h)
skip_behind_advances pos (chr c ∷ l) r' h = absurd (cc h)
skip_behind_advances pos (num n ∷ l) r' h =
    let le = skipped_advances (pos + 1 + n) n l r' h in omega arith

skip_advances : (t : ℕ) (r r' : Reader Sym) → skip_by t r ≡ ok r' → length r'.rest ≤ length r.rest
unfolding skip_by
skip_advances t r r' h = elim (Bool-cases (t == 0)) [
  | inl a ↦ skipped_advances (r.pos + 1) 1 r.rest r' (rw a at h)
  | inr a ↦ elim (Bool-cases (t == 1)) [
    | inl b ↦ skipped_advances (r.pos + 8) 8 r.rest r' (rw (a, b) at h)
    | inr b ↦ elim (Bool-cases (t == 2)) [
      | inl c ↦ skip_behind_advances r.pos r.rest r' (rw (a, b, c) at h)
      | inr c ↦ elim (Bool-cases (t == 5)) [
        | inl d ↦ skipped_advances (r.pos + 4) 4 r.rest r' (rw (a, b, c, d) at h)
        | inr d ↦ absurd (cc (rw (a, b, c, d) at h))
      ]
    ]
  ]
]

bool_lem :
    (b : Bool) (pos : ℕ) (tail : List Sym)
    → is_true (get_num pos (num (bool_bit b) ∷ tail)) ≡ ok (b, at (pos + 1) tail)
unfolding get_num is_true
bool_lem true pos tail = refl
bool_lem false pos tail = refl

pub sample_laws : WireLaws sample_wire
unfolding get_num text_behind text_result is_true join_onto sample_wire
sample_laws = record {
  put_uint32_lem = λ n x h. refl;
  put_string_lem = λ s x h. refl;
  put_bool_lem = λ b x. refl;
  fork_lem = λ x. refl;
  join_lem = λ above outer inner h. refl;
  finish_lem = λ bytes. refl;
  get_uint32_lem = λ n pos tail h. refl;
  get_string_lem =
      λ s pos tail h. rw (take_text_lem s tail) (ap (λ (p : ℕ). ok (s, at p tail)) (omega arith));
  get_bool_lem = λ b pos tail. bool_lem b pos tail;
  uint32_advances = λ r r' n h. get_num_advances r.pos r.rest r' n h;
  string_advances = λ r r' s h. let lt = string_advances r.pos r.rest r' s h in omega arith;
  bool_advances = λ r r' b h. bool_advances r.pos r.rest r' b h;
  skip_advances = λ t r r' h. skip_advances t r r' h;
  reads_return = λ r. (
    get_num_returns r.pos r.rest,
    string_returns r.pos r.rest,
    bool_returns r.pos r.rest,
    λ t. skip_returns t r,
  );
}
