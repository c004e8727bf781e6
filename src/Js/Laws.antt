-- ===== src/Js/Laws.antt =====
-- What is read back from an object that was built property by property.
use sample_grpc_service.Prelude.{
  String, ◌≡◌, refl, Bool, true, false, Option, none, some, List, [], ◌∷◌, arith, str_eq, eq_iff,
  if◌then◌else◌,
}
use sample_grpc_service.Prelude.Outcome.{Outcome, ok}
use sample_grpc_service.Js.{
  Js, undefined, bool, str, arr, obj, Props, end, prop, own, set_prop, is_set, get_prop?,
  string_or_empty, string_or_undefined, string_either, bool_either, message_or_undefined,
  string_field, string_field?, string_field_either, bool_field_either, message_field, map_items,
  array_field, set_string, set_string?, set_bool, set_message?, items, set_array,
}

pub own-set_prop :
    (k j : String) (v : Js) (ps : Props)
    → own j (set_prop k v ps) ≡ (if str_eq k j then v else own j ps)
unfolding own set_prop
own-set_prop k j v end = refl
own-set_prop k j v (prop i u ps) =
    ground (arith, eq_iff k j, eq_iff i k, eq_iff i j, own-set_prop k j v ps)

pub own-set_string :
    (k j s : String) (ps : Props)
    → own j (set_string k s ps)
      ≡ (if str_eq k j then (if str_eq s "" then own j ps else str s) else own j ps)
unfolding set_string
own-set_string k j s ps = ground (arith, own-set_prop k j (str s) ps)

-- What stands under the key of an optional text, or of a flag.
abbrev pub text_at : Option String → Js → Js
text_at none v = v
text_at (some s) v = str s

abbrev pub flag_at : Bool → Js → Js
flag_at true v = bool true
flag_at false v = v

pub own-set_string? :
    (k j : String) (s : Option String) (ps : Props)
    → own j (set_string? k s ps) ≡ (if str_eq k j then text_at s (own j ps) else own j ps)
unfolding set_string?
own-set_string? k j none ps = ground arith
own-set_string? k j (some s) ps = own-set_prop k j (str s) ps

pub own-set_bool :
    (k j : String) (b : Bool) (ps : Props)
    → own j (set_bool k b ps) ≡ (if str_eq k j then flag_at b (own j ps) else own j ps)
unfolding set_bool
own-set_bool k j false ps = ground arith
own-set_bool k j true ps = own-set_prop k j (bool true) ps

abbrev pub message_at {ℓ} : {A : Type ℓ} → (A → Js) → Option A → Js → Js
message_at f none v = v
message_at f (some m) v = f m

abbrev pub array_at {ℓ} : {A : Type ℓ} → (A → Js) → List A → Js → Js
array_at f [] v = v
array_at f (a ∷ l) v = arr (items f (a ∷ l))

pub own-set_array {ℓ} :
    {A : Type ℓ} (k j : String) (f : A → Js) (l : List A) (ps : Props)
    → own j (set_array k f l ps) ≡ (if str_eq k j then array_at f l (own j ps) else own j ps)
unfolding set_array
own-set_array k j f [] ps = ground arith
own-set_array k j f (a ∷ l) ps = own-set_prop k j (arr (items f (a ∷ l))) ps

pub own-end : (k : String) → own k end ≡ undefined
unfolding own
own-end k = refl

-- A default that was left out is read as the default.
pub string_or_empty-default :
    (s : String) → string_or_empty (if str_eq s "" then undefined else str s) ≡ ok s
unfolding string_or_empty
string_or_empty-default s = ground (arith, eq_iff s "")

pub string_or_undefined-default :
    (s : Option String) → string_or_undefined (text_at s undefined) ≡ ok s
unfolding string_or_undefined
string_or_undefined-default none = refl
string_or_undefined-default (some s) = refl

pub map_items-items {ℓ} :
    {A : Type ℓ} (f : A → Js) (g : Js → Outcome A) (l : List A)
    → ((a : A) → g (f a) ≡ ok a)
    → map_items g (items f l) ≡ ok l
unfolding map_items items
map_items-items f g [] h = refl
map_items-items f g (a ∷ l) h = rw (h a) (rw (map_items-items f g l h))

pub array_field-default {ℓ} :
    {A : Type ℓ} (f : A → Js) (g : Js → Outcome A) (l : List A)
    → ((a : A) → g (f a) ≡ ok a)
    → array_field g (array_at f l undefined) ≡ ok l
unfolding array_field
array_field-default f g [] h = refl
array_field-default f g (a ∷ l) h = map_items-items f g (a ∷ l) h

pub own-set_message? {ℓ} :
    {A : Type ℓ} (k j : String) (f : A → Js) (m : Option A) (ps : Props)
    → own j (set_message? k f m ps) ≡ (if str_eq k j then message_at f m (own j ps) else own j ps)
unfolding set_message?
own-set_message? k j f none ps = ground arith
own-set_message? k j f (some m) ps = own-set_prop k j (f m) ps

pub message_or_undefined-default {ℓ} :
    {A : Type ℓ} (f : A → Js) (g : Js → Outcome A) (m : Option A)
    → ((a : A) → g (f a) ≡ ok a)
    → ((a : A) → is_set (f a) ≡ true)
    → message_or_undefined g (message_at f m undefined) ≡ ok m
unfolding message_or_undefined
message_or_undefined-default f g none h s = refl
message_or_undefined-default f g (some m) h s = rw (s m) (rw (h m))

pub string_either-default :
    (s : String) → string_either (if str_eq s "" then undefined else str s) undefined ≡ ok s
unfolding string_either
string_either-default s = ground (arith, eq_iff s "")

pub bool_either-default : (b : Bool) → bool_either (flag_at b undefined) undefined ≡ b
unfolding bool_either
bool_either-default true = refl
bool_either-default false = refl

-- How a field of an object is read.
module _ (k : String) (ps : Props) where
  pub string_field-obj : string_field k (obj ps) ≡ string_or_empty (own k ps)
  unfolding string_field
  string_field-obj = refl

  pub string_field?-obj : string_field? k (obj ps) ≡ string_or_undefined (own k ps)
  unfolding string_field?
  string_field?-obj = refl

  pub string_field_either-obj :
      (j : String) → string_field_either k j (obj ps) ≡ string_either (own k ps) (own j ps)
  unfolding string_field_either
  string_field_either-obj j = refl

  pub bool_field_either-obj :
      (j : String) → bool_field_either k j (obj ps) ≡ ok (bool_either (own k ps) (own j ps))
  unfolding bool_field_either
  bool_field_either-obj j = refl

  pub message_field-obj {ℓ} :
      {A : Type ℓ} (f : Js → Outcome A)
      → message_field f k (obj ps) ≡ message_or_undefined f (own k ps)
  unfolding message_field
  message_field-obj f = refl

  pub get_prop?-obj : get_prop? k (obj ps) ≡ own k ps
  unfolding get_prop?
  get_prop?-obj = refl

pub is_set-obj : (ps : Props) → is_set (obj ps) ≡ true
unfolding is_set
is_set-obj ps = refl

pub ruleset own_laws = (
  own-set_prop, own-set_string, own-set_string?, own-set_bool, own-set_message?, own-set_array,
  own-end,
)

pub ruleset read_laws = (
  string_field-obj, string_field?-obj, string_field_either-obj, bool_field_either-obj,
  message_field-obj, get_prop?-obj, string_or_empty-default, string_or_undefined-default,
  string_either-default, bool_either-default,
)
