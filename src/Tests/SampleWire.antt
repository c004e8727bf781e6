-- ===== src/Tests/SampleWire.antt =====
-- A wire library with one symbol for each varint and for each character of a text.
pub mod Laws
use sample_grpc_service.Prelude.{
  ℕ, zero, suc, ◌+◌, ◌≤◌, ◌<◌, ◌≡◌, ◌≢◌, refl, Bool, true, false, Option, none, some, List, [], ◌∷◌,
  ◌++◌, String, arith, ◌==◌, if◌then◌else◌, length, inl, inr, Bool-cases, Option-cases, ap,
}
use sample_grpc_service.Prelude.Outcome.{Outcome, ok, throw, stuck, wire_error}
use sample_grpc_service.Wire.{Wire, WireLaws, Writer, Reader, bool_bit}
use Prim.Native.Char.{Char}

pub data Sym : Type 0 where
  num : ℕ → Sym
  chr : Char → Sym

abbrev pub symbols : String → List Sym
symbols String.[] = []
symbols (String.◌∷◌ c s) = chr c ∷ symbols s

abbrev at : ℕ → List Sym → Reader Sym
at pos rest = record { pos = pos; rest = rest }

abbrev add : Writer Sym → List Sym → Writer Sym
add x l = record x { chunk = x.chunk ++ l }

abbrev eof : {A : Type 0} → Outcome A
eof = throw (wire_error "premature EOF")

unfoldable pub get_num : ℕ → List Sym → Outcome (ℕ × Reader Sym)
get_num pos [] = eof
get_num pos (num n ∷ l) = ok (n, at (pos + 1) l)
get_num pos (chr c ∷ l) = throw (wire_error "invalid varint")

take_text : ℕ → List Sym → Option (String × List Sym)
take_text zero l = some (String.[], l)
take_text (suc n) [] = none
take_text (suc n) (num k ∷ l) = none
take_text (suc n) (chr c ∷ l) = elim (take_text n l) [
  | none ↦ none
  | some p ↦ some (String.◌∷◌ c p.0, p.1)
]

drop_exact : ℕ → List Sym → Option (List Sym)
drop_exact zero l = some l
drop_exact (suc n) [] = none
drop_exact (suc n) (x ∷ l) = drop_exact n l

text_result : ℕ → Option (String × List Sym) → Outcome (String × Reader Sym)
text_result pos none = eof
text_result pos (some p) = ok (p.0, at pos p.1)

unfoldable pub text_behind : List Sym → Outcome (ℕ × Reader Sym) → Outcome (String × Reader Sym)
unfolding text_result take_text
text_behind l (ok (n, r)) = text_result (r.pos + n) (take_text n r.rest)
text_behind l (throw e) = throw e
text_behind l stuck = stuck

is_true : Outcome (ℕ × Reader Sym) → Outcome (Bool × Reader Sym)
is_true (ok (n, r)) = ok (if n == 0 then false else true, r)
is_true (throw e) = throw e
is_true stuck = stuck

skipped : ℕ → Option (List Sym) → Outcome (Reader Sym)
skipped pos none = eof
skipped pos (some l) = ok (at pos l)

skip_behind : Outcome (ℕ × Reader Sym) → Outcome (Reader Sym)
unfolding skipped drop_exact
skip_behind (ok (n, r)) = skipped (r.pos + n) (drop_exact n r.rest)
skip_behind (throw e) = throw e
skip_behind stuck = stuck

skip_by : ℕ → Reader Sym → Outcome (Reader Sym)
unfolding skip_behind get_num
skip_by t r =
    if t == 0
    then skipped (r.pos + 1) (drop_exact 1 r.rest)
    else if t == 1
    then skipped (r.pos + 8) (drop_exact 8 r.rest)
    else if t == 2
    then skip_behind (get_num r.pos r.rest)
    else if t == 5
    then skipped (r.pos + 4) (drop_exact 4 r.rest)
    else throw (wire_error "cant skip wire type")

join_onto : List (List Sym) → List Sym → Writer Sym
join_onto [] inner = record { outer = []; chunk = inner }
join_onto (above ∷ outer) inner = record {
  outer = outer;
  chunk = above ++ (num (length inner) ∷ inner);
}

unfoldable pub sample_wire : Wire
unfolding get_num text_behind is_true skip_by join_onto
sample_wire = record {
  Byte = Sym;
  varint = λ n. num n ∷ [];
  utf8 = symbols;
  put_uint32 = λ n x. add x (num n ∷ []);
  put_string = λ s x. add x (num (length (symbols s)) ∷ symbols s);
  put_bool = λ b x. add x (num (bool_bit b) ∷ []);
  fork = λ x. record { outer = x.chunk ∷ x.outer; chunk = [] };
  join = λ x. join_onto x.outer x.chunk;
  finish = λ x. x.chunk;
  get_uint32 = λ r. get_num r.pos r.rest;
  get_string = λ r. text_behind r.rest (get_num r.pos r.rest);
  get_bool = λ r. is_true (get_num r.pos r.rest);
  skip = skip_by;
}
