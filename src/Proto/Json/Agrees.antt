-- ===== src/Proto/Json/Agrees.antt =====
-- The kinds of values that the messages of web/src/generated/google/protobuf/descriptor.ts write to
-- JSON, read again.
use sample_grpc_service.Prelude.{
  ℕ, ◌%◌, ◌≡◌, refl, String, Bool, true, List, [], ◌∷◌, map, ltb, ltb→lt, inl, inr, Bool-cases,
  eq_iff,
}
use sample_grpc_service.Prelude.Outcome.{ok}
use sample_grpc_service.Js.{Js, number, str, is_set, to_string, to_boolean}
use sample_grpc_service.Proto.{Runtime, are_bytes}
use sample_grpc_service.Proto.Laws.{RuntimeLaws, Passes}
use sample_grpc_service.Wire.Runs.{Any}
use sample_grpc_service.Proto.Json.{
  JsonScalar, js_text, js_flag, js_integer, js_double, js_raw, js_enum, to_number,
  bytes_from_base64, base64_from_bytes,
}
use sample_grpc_service.Proto.Same.{bool_same, empty_lem}
use native.Mathlib.Nat.{mod-eq_of_lt}

-- What `to` writes `from` reads, for the values that fit.
pub record JsonAgrees {A : Type 0} (s : JsonScalar A) (Fits : A → Type 0) : Type 0 where
  pub from-to : (v : A) → Fits v → s.from (s.to v) ≡ ok v
  pub set_lem : (v : A) → is_set (s.to v) ≡ true

pub record JsonKept {A : Type 0} (s : JsonScalar A) (Fits : A → Type 0) (d : A) : Type 0 where
  pub agrees : JsonAgrees s Fits
  pub same_lem : (v : A) → s.same v d ≡ true → v ≡ d

pub js_text-agrees : JsonAgrees js_text Any
unfolding to_string is_set
js_text-agrees = record { from-to = λ v fits. refl; set_lem = λ v. refl }

pub js_text-kept : (d : String) → JsonKept js_text Any d
js_text-kept d = record { agrees = js_text-agrees; same_lem = λ v h. (eq_iff v d).0 h }

pub js_flag-kept : (d : Bool) → JsonKept js_flag Any d
unfolding to_boolean is_set
js_flag-kept d = record {
  agrees = record { from-to = λ v fits. refl; set_lem = λ v. refl };
  same_lem = λ v. bool_same v d;
}

module _ (e : Runtime) (laws : RuntimeLaws e) where
  -- An integer that `Math.round` leaves alone.
  pub js_integer-agrees :
      {Fits : String → Type 0}
      → ((n : String) → Fits n → e.round n ≡ n)
      → JsonAgrees (js_integer e) Fits
  unfolding to_number is_set
  js_integer-agrees rounds = record {
    from-to = λ n fits. rw (rounds n fits) refl;
    set_lem = λ n. refl;
  }

  pub js_integer-kept :
      {Fits : String → Type 0}
      → ((n : String) → Fits n → e.round n ≡ n)
      → (d : String) → JsonKept (js_integer e) Fits d
  js_integer-kept rounds d = record {
    agrees = js_integer-agrees rounds;
    same_lem = λ v h. (eq_iff v d).0 h;
  }

  pub js_double-kept : (d : String) → JsonKept (js_double e) Any d
  unfolding to_number is_set
  js_double-kept d = record {
    agrees = record { from-to = λ n fits. refl; set_lem = λ n. refl };
    same_lem = λ v h. (eq_iff v d).0 h;
  }

  bytes_kept : (v : List ℕ) → are_bytes v ≡ true → map (λ c. c % 256) v ≡ v
  bytes_kept [] h = refl
  bytes_kept (b ∷ v) h = elim (Bool-cases (ltb b 256)) [
    | inl small ↦ rw (mod-eq_of_lt (ltb→lt b 256 small)) (rw (bytes_kept v (rw small at h)))
    | inr large ↦ absurd (cc (rw large at h))
  ]

  bytes_from_base64-base64_from_bytes :
      (v : List ℕ) → are_bytes v ≡ true → bytes_from_base64 e (str (base64_from_bytes e v)) ≡ ok v
  unfolding bytes_from_base64 base64_from_bytes
  bytes_from_base64-base64_from_bytes v h = elim (Bool-cases e.has_buffer) [
    | inl there ↦ rw there (laws.buffer_lem v h)
    | inr missing ↦ rw missing (rw (laws.atob_lem v h) (rw (bytes_kept v h)))
  ]

  pub js_raw-kept : JsonKept (js_raw e) (Passes are_bytes) []
  unfolding is_set
  js_raw-kept = record {
    agrees = record { from-to = bytes_from_base64-base64_from_bytes; set_lem = λ v. refl };
    same_lem = empty_lem;
  }

-- A number of an enum that has a name.
abbrev pub Known : {E : Type 0} → (Js → E) → (E → String) → String → Type 0
Known from_json enum_value n = enum_value (from_json (number n)) ≡ n

module _ {E : Type 0} (from_json : Js → E) (to_json : E → String) (enum_value : E → String)
    (read : (x : E)
      → (from_json (str (to_json x)) ≡ x) × (from_json (number (enum_value x)) ≡ x)) where
  pub js_enum-agrees :
      JsonAgrees (js_enum from_json to_json enum_value) (Known from_json enum_value)
  unfolding is_set
  js_enum-agrees = record {
    from-to = λ n known. rw ((read (from_json (number n))).0) (rw known);
    set_lem = λ n. refl;
  }

  pub js_enum-kept :
      (d : String) → JsonKept (js_enum from_json to_json enum_value) (Known from_json enum_value) d
  js_enum-kept d = record { agrees = js_enum-agrees; same_lem = λ v h. (eq_iff v d).0 h }
