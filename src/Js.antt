-- ===== src/Js.antt =====
-- The values that `JSON.parse` makes and `JSON.stringify` takes, and what the generated
-- `fromJSON` and `toJSON` of web/src/generated do with them.
pub mod Laws
pub mod Codec
use sample_grpc_service.Prelude.{
  ℕ, String, Bool, true, false, not, ◌||◌, List, [], ◌∷◌, Option, none, some, str_eq, if◌then◌else◌,
}
use sample_grpc_service.Prelude.Outcome.{Outcome, ok, throw, type_error, ◌>>=◌}
use Prim.Native.String

-- A number is what `String(n)` gives for it: "0" also for -0.
mutual
  pub data Js : Type 0 where
    undefined null : Js
    bool : Bool → Js
    number : String → Js
    str : String → Js
    arr : Items → Js
    obj : Props → Js

  pub data Items : Type 0 where
    nil : Items
    cons : Js → Items → Items

  pub data Props : Type 0 where
    end : Props
    prop : String → Js → Props → Props

-- The value of an own property; no property of a prototype has a name that is read here.
unfoldable pub own : String → Props → Js
own k end = undefined
own k (prop j v ps) = if str_eq j k then v else own k ps

-- `o[k] = v`
unfoldable pub set_prop : String → Js → Props → Props
set_prop k v end = prop k v end
set_prop k v (prop j u ps) = if str_eq j k then prop j v ps else prop j u (set_prop k v ps)

-- `o.k`, an error on `null` and `undefined`
unfoldable pub get_prop : String → Js → Outcome Js
unfolding own
get_prop k undefined = throw (type_error "Cannot read properties of undefined")
get_prop k null = throw (type_error "Cannot read properties of null")
get_prop k (obj ps) = ok (own k ps)
get_prop k _ = ok undefined

-- `o?.k`
unfoldable pub get_prop? : String → Js → Js
unfolding own
get_prop? k (obj ps) = own k ps
get_prop? k _ = undefined

-- `value !== null && value !== undefined`
unfoldable pub is_set : Js → Bool
is_set undefined = false
is_set null = false
is_set _ = true

has : String → Props → Bool
has k end = false
has k (prop j v ps) = str_eq j k || has k ps

abbrev bool_text : Bool → String
bool_text true = "true"
bool_text false = "false"

-- `globalThis.String`. An own `toString` is no function in parsed JSON, so it is an error; an array
-- is joined by commas, its `null` and `undefined` as empty texts.
unfoldable mutual
  unfolding has

  pub to_string : Js → Outcome String
  to_string undefined = ok "undefined"
  to_string null = ok "null"
  to_string (bool b) = ok (bool_text b)
  to_string (number n) = ok n
  to_string (str s) = ok s
  to_string (arr vs) = join vs
  to_string (obj ps) =
      if has "toString" ps
      then throw (type_error "Cannot convert object to primitive value")
      else ok "[object Object]"

  join : Items → Outcome String
  join nil = ok ""
  join (cons v vs) = do s ← element v; join_rest s vs

  join_rest : String → Items → Outcome String
  join_rest s nil = ok s
  join_rest s (cons v vs) = do t ← element v; join_rest (String.◌++◌ s (String.◌++◌ "," t)) vs

  element : Js → Outcome String
  element undefined = ok ""
  element null = ok ""
  element (bool b) = ok (bool_text b)
  element (number n) = ok n
  element (str s) = ok s
  element (arr vs) = join vs
  element (obj ps) =
      if has "toString" ps
      then throw (type_error "Cannot convert object to primitive value")
      else ok "[object Object]"

-- `globalThis.Boolean`
unfoldable pub to_boolean : Js → Bool
to_boolean undefined = false
to_boolean null = false
to_boolean (bool b) = b
to_boolean (number n) = not (str_eq n "0" || str_eq n "NaN")
to_boolean (str s) = not (str_eq s "")
to_boolean _ = true

-- `isSet(v) ? String(v) : ""`
unfoldable pub string_or_empty : Js → Outcome String
unfolding is_set to_string
string_or_empty v = if is_set v then to_string v else ok ""

-- `isSet(v) ? String(v) : undefined`
unfoldable pub string_or_undefined : Js → Outcome (Option String)
unfolding is_set to_string
string_or_undefined v = if is_set v then (do s ← to_string v; ok (some s)) else ok none

-- `isSet(o.k) ? String(o.k) : ""`
unfoldable pub string_field : String → Js → Outcome String
unfolding get_prop string_or_empty
string_field k o = do v ← get_prop k o; string_or_empty v

unfoldable pub string_field? : String → Js → Outcome (Option String)
unfolding get_prop string_or_undefined
string_field? k o = do v ← get_prop k o; string_or_undefined v

-- `isSet(o.k) ? String(o.k) : isSet(o.j) ? String(o.j) : ""`
unfoldable pub string_either : Js → Js → Outcome String
unfolding string_or_empty
string_either v u = if is_set v then to_string v else string_or_empty u

unfoldable pub string_field_either : String → String → Js → Outcome String
unfolding get_prop string_either
string_field_either k j o = do v ← get_prop k o; u ← get_prop j o; string_either v u

-- `isSet(o.k) ? Boolean(o.k) : isSet(o.j) ? Boolean(o.j) : false`
unfoldable pub bool_either : Js → Js → Bool
unfolding is_set to_boolean
bool_either v u = if is_set v then to_boolean v else if is_set u then to_boolean u else false

unfoldable pub bool_field_either : String → String → Js → Outcome Bool
unfolding get_prop bool_either
bool_field_either k j o = do v ← get_prop k o; u ← get_prop j o; ok (bool_either v u)

-- `isSet(v) ? M.fromJSON(v) : undefined`
unfoldable pub message_or_undefined {ℓ} : {A : Type ℓ} → (Js → Outcome A) → Js → Outcome (Option A)
unfolding is_set
message_or_undefined f v = if is_set v then (do m ← f v; ok (some m)) else ok none

unfoldable pub message_field {ℓ} :
    {A : Type ℓ} → (Js → Outcome A) → String → Js → Outcome (Option A)
unfolding get_prop message_or_undefined
message_field f k o = do v ← get_prop k o; message_or_undefined f v

-- `vs.map(f)`
unfoldable pub map_items {ℓ} : {A : Type ℓ} → (Js → Outcome A) → Items → Outcome (List A)
map_items f nil = ok []
map_items f (cons v vs) = do a ← f v; as' ← map_items f vs; ok (a ∷ as')

-- `Array.isArray(v) ? v.map(f) : []`
unfoldable pub array_field {ℓ} : {A : Type ℓ} → (Js → Outcome A) → Js → Outcome (List A)
unfolding map_items
array_field f (arr vs) = map_items f vs
array_field f _ = ok []

-- `if (s !== "") { o.k = s; }` and the like
unfoldable pub set_string : String → String → Props → Props
unfolding set_prop
set_string k s ps = if str_eq s "" then ps else set_prop k (str s) ps

unfoldable pub set_string? : String → Option String → Props → Props
unfolding set_prop
set_string? k none ps = ps
set_string? k (some s) ps = set_prop k (str s) ps

unfoldable pub set_bool : String → Bool → Props → Props
unfolding set_prop
set_bool k b ps = if b then set_prop k (bool b) ps else ps

-- `if (m !== undefined) { o.k = M.toJSON(m); }`
unfoldable pub set_message? {ℓ} : {A : Type ℓ} → String → (A → Js) → Option A → Props → Props
unfolding set_prop
set_message? k f none ps = ps
set_message? k f (some m) ps = set_prop k (f m) ps

unfoldable pub items {ℓ} : {A : Type ℓ} → (A → Js) → List A → Items
items f [] = nil
items f (a ∷ as') = cons (f a) (items f as')

-- `if (l?.length) { o.k = l.map(f); }`
unfoldable pub set_array {ℓ} : {A : Type ℓ} → String → (A → Js) → List A → Props → Props
unfolding set_prop items
set_array k f [] ps = ps
set_array k f (a ∷ as') ps = set_prop k (arr (items f (a ∷ as'))) ps
