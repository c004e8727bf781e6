-- ===== src/Proto/Json.antt =====
-- What `fromJSON` and `toJSON` of the messages of web/src/generated/google/protobuf/descriptor.ts
-- are made of.
pub mod Laws
pub mod Agrees
use sample_grpc_service.Prelude.{
  ℕ, ◌%◌, String, Bool, true, false, Option, none, some, List, [], ◌∷◌, map, length, ◌==◌, str_eq,
  if◌then◌else◌,
}
use sample_grpc_service.Prelude.Outcome.{Outcome, ok, ◌>>=◌}
use sample_grpc_service.Js.{
  Js, undefined, null, bool, number, str, arr, obj, Props, end, is_set, get_prop, set_prop,
  to_string, to_boolean, map_items, array_field, message_or_undefined,
}
use sample_grpc_service.Proto.{Runtime, bool_eq}

-- `{}`
abbrev pub no_props : Props
no_props = end

-- A kind of value in JSON; `same` is the test of `!== d`.
pub record JsonScalar (A : Type 0) : Type 0 where
  pub same : A → A → Bool
  pub from : Js → Outcome A
  pub to : A → Js

-- `globalThis.Number`; an own `valueOf` is no function in parsed JSON, so it is passed over.
unfoldable pub to_number : Runtime → Js → Outcome String
unfolding to_string
to_number e undefined = ok "NaN"
to_number e null = ok "0"
to_number e (bool b) = ok (if b then "1" else "0")
to_number e (number n) = ok n
to_number e v = do s ← to_string v; ok (e.number_of s)

-- `bytesFromBase64`; a value that is assigned to a byte is taken modulo 256.
unfoldable pub bytes_from_base64 : Runtime → Js → Outcome (List ℕ)
bytes_from_base64 e v =
    if e.has_buffer then e.buffer_from v else do bin ← e.atob v; ok (map (λ c. c % 256) bin)

-- `base64FromBytes`
unfoldable pub base64_from_bytes : Runtime → List ℕ → String
base64_from_bytes e v = if e.has_buffer then e.buffer_to v else e.btoa v

abbrev pub js_text : JsonScalar String
js_text = record { same = str_eq; from = to_string; to = str }

abbrev pub js_flag : JsonScalar Bool
js_flag = record { same = bool_eq; from = λ v. ok (to_boolean v); to = bool }

abbrev pub js_integer : Runtime → JsonScalar String
js_integer e = record { same = str_eq; from = to_number e; to = λ n. number (e.round n) }

abbrev pub js_double : Runtime → JsonScalar String
js_double e = record { same = str_eq; from = to_number e; to = number }

abbrev pub js_raw : Runtime → JsonScalar (List ℕ)
js_raw e = record {
  same = λ v d. length v == length d;
  from = bytes_from_base64 e;
  to = λ v. str (base64_from_bytes e v);
}

-- An enum is a number at run time; `toJSON` gives any other number the name of UNRECOGNIZED.
abbrev pub js_enum : {E : Type 0} → (Js → E) → (E → String) → (E → String) → JsonScalar String
js_enum from_json to_json enum_value = record {
  same = str_eq;
  from = λ v. ok (enum_value (from_json v));
  to = λ n. str (to_json (from_json (number n)));
}

module _ {A : Type 0} (s : JsonScalar A) where
  -- `isSet(v) ? from(v) : d`
  unfoldable pub value_or : A → Js → Outcome (Option A)
  unfolding is_set
  value_or d v = if is_set v then (do a ← s.from v; ok (some a)) else ok (some d)

  -- `isSet(o.k) ? from(o.k) : d`
  unfoldable pub field_or : String → A → Js → Outcome (Option A)
  unfolding get_prop value_or
  field_or k d o = do v ← get_prop k o; value_or d v

  -- `isSet(o.k) ? from(o.k) : isSet(o.j) ? from(o.j) : d`
  unfoldable pub either_or : A → Js → Js → Outcome (Option A)
  unfolding is_set value_or
  either_or d v u = if is_set v then (do a ← s.from v; ok (some a)) else value_or d u

  unfoldable pub field_either : String → String → A → Js → Outcome (Option A)
  unfolding get_prop either_or
  field_either k j d o = do v ← get_prop k o; u ← get_prop j o; either_or d v u

  -- `if (v !== undefined && v !== d) { o.k = to(v); }`
  unfoldable pub set_or : String → A → Option A → Props → Props
  unfolding set_prop
  set_or k d none ps = ps
  set_or k d (some v) ps = if s.same v d then ps else set_prop k (s.to v) ps

-- `Array.isArray(v) ? v.map(f) : Array.isArray(u) ? u.map(f) : []`
unfoldable pub array_either {ℓ} : {A : Type ℓ} → (Js → Outcome A) → Js → Js → Outcome (List A)
unfolding map_items array_field
array_either f (arr vs) u = map_items f vs
array_either f _ u = array_field f u

-- `isSet(o.k) ? M.fromJSON(o.k) : isSet(o.j) ? M.fromJSON(o.j) : undefined`
unfoldable pub message_either : {A : Type 0} → (Js → Outcome A) → Js → Js → Outcome (Option A)
unfolding is_set message_or_undefined
message_either f v u = if is_set v then (do m ← f v; ok (some m)) else message_or_undefined f u

unfoldable pub message_field_either :
    {A : Type 0} → (Js → Outcome A) → String → String → Js → Outcome (Option A)
unfolding get_prop message_either
message_field_either f k j o = do v ← get_prop k o; u ← get_prop j o; message_either f v u
