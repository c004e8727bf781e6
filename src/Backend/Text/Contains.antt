-- ===== src/Backend/Text/Contains.antt =====
-- `strings.Contains` and prefixes, as the server calls them.
use sample_grpc_service.Prelude.{
  ◌≡◌, refl, sym, ap, ◌∙◌, String, Bool, true, false, ◌||◌, some, ◌==◌, arith, inl, inr, Bool-cases,
  Option-cases,
}
use sample_grpc_service.Backend.Text.{strip_prefix, contains}
use Prim.Native.Char.{Char, code}
use Prim.Native.String
use text.Mathlib.TextEquality.{codes_equal}
use text.Mathlib.TextLemmas.{nil-append, cons-append}

code_refl : (c : Char) → (code c == code c) ≡ true
code_refl c = ground arith

pub strip_prefix-append : (p s : String) → strip_prefix p (String.◌++◌ p s) ≡ some s
unfolding strip_prefix
strip_prefix-append String.[] s = ap some (nil-append s)
strip_prefix-append (String.◌∷◌ c p) s =
    rw (cons-append c p s) (rw (code_refl c) (strip_prefix-append p s))

-- The text stands somewhere in the other.
pub record Within (p s : String) : Type 0 where
  pub before : String
  pub after : String
  pub parts : s ≡ String.◌++◌ before (String.◌++◌ p after)

stripped : (p s t : String) → strip_prefix p s ≡ some t → s ≡ String.◌++◌ p t
unfolding strip_prefix
stripped String.[] s t h = cc (h, nil-append t)
stripped (String.◌∷◌ c p) String.[] t h = absurd (cc h)
stripped (String.◌∷◌ c p) (String.◌∷◌ d s) t h = elim (Bool-cases (code c == code d)) [
  | inl same ↦
      let e : c ≡ d = codes_equal c d (ground (arith, same)) in
      let rest = stripped p s t (rw same at h) in
      ap (λ (x : Char). String.◌∷◌ x s) (sym e) ∙ ap (String.◌∷◌ c) rest ∙ sym (cons-append c p t)
  | inr other ↦ absurd (cc (rw other at h))
]

pub contains-Within : (s p : String) → contains s p ≡ true → Within p s
unfolding contains
contains-Within String.[] p h = elim (Option-cases (strip_prefix p String.[])) [
  | inl missing ↦ absurd (cc (rw missing at h))
  | inr (t, e) ↦ record {
    before = String.[];
    after = t;
    parts = stripped p String.[] t e ∙ sym (nil-append _);
  }
]
contains-Within (String.◌∷◌ c s) p h = elim (Option-cases (strip_prefix p (String.◌∷◌ c s))) [
  | inl missing ↦
      let w = contains-Within s p (rw missing at h) in
      record {
        before = String.◌∷◌ c w.before;
        after = w.after;
        parts = ap (String.◌∷◌ c) w.parts ∙ sym (cons-append c w.before _);
      }
  | inr (t, e) ↦ record {
    before = String.[];
    after = t;
    parts = stripped p (String.◌∷◌ c s) t e ∙ sym (nil-append _);
  }
]

or_true : (b : Bool) → (b || true) ≡ true
or_true true = refl
or_true false = refl

contains-prefix : (s p t : String) → strip_prefix p s ≡ some t → contains s p ≡ true
unfolding contains
contains-prefix String.[] p t h = rw h
contains-prefix (String.◌∷◌ c s) p t h = rw h

contains-there :
    (before p after : String) → contains (String.◌++◌ before (String.◌++◌ p after)) p ≡ true
unfolding contains
contains-there String.[] p after =
    rw (nil-append (String.◌++◌ p after))
      (contains-prefix (String.◌++◌ p after) p after (strip_prefix-append p after))
contains-there (String.◌∷◌ c before) p after =
    rw (cons-append c before (String.◌++◌ p after), contains-there before p after) (or_true _)

pub Within-contains : (s p : String) → Within p s → contains s p ≡ true
Within-contains s p w = rw w.parts (contains-there w.before p w.after)
