-- ===== src/Proto/Json/Laws.antt =====
-- The properties of a message of web/src/generated/google/protobuf/descriptor.ts, set in an object
-- by `toJSON` and read from it by `fromJSON`.
use sample_grpc_service.Prelude.{
  ◌≡◌, refl, String, Bool, Option, none, some, List, [], ◌∷◌, map, str_eq, arith, if◌then◌else◌,
  inl, inr, Bool-cases,
}
use sample_grpc_service.Prelude.Outcome.{Outcome, ok}
use sample_grpc_service.Partial.{get_or}
use sample_grpc_service.Js.{Js, undefined, obj, Props, own}
use sample_grpc_service.Js.Laws.{own-set_prop, array_at, message_at, own_laws, read_laws}
use sample_grpc_service.Proto.Json.{
  JsonScalar, js_text, js_flag, value_or, field_or, either_or, field_either, set_or, array_either,
  message_either, message_field_either,
}
use sample_grpc_service.Proto.Json.Agrees.{JsonAgrees, JsonKept, js_text-kept, js_flag-kept}
use sample_grpc_service.Js.Codec.{JsonCodec, map_items-fill}
use sample_grpc_service.Wire.Runs.{OnOption, OnList, Any-option}
use mathlib.Core.Option

module _ {A : Type 0} (s : JsonScalar A) where
  -- What stands under the key of a field, where `v` stood.
  pub value_at : A → Option A → Js → Js
  value_at d none v = v
  value_at d (some a) v = if s.same a d then v else s.to a

  pub own-set_or :
      (k j : String) (d : A) (o : Option A) (ps : Props)
      → own j (set_or s k d o ps) ≡ (if str_eq k j then value_at d o (own j ps) else own j ps)
  unfolding set_or value_at
  own-set_or k j d none ps = ground arith
  own-set_or k j d (some a) ps = ground (arith, own-set_prop k j (s.to a) ps)

  module _ (k : String) (d : A) (ps : Props) where
    pub field_or-obj : field_or s k d (obj ps) ≡ value_or s d (own k ps)
    unfolding field_or
    field_or-obj = refl

    pub field_either-obj :
        (j : String) → field_either s k j d (obj ps) ≡ either_or s d (own k ps) (own j ps)
    unfolding field_either
    field_either-obj j = refl

module _ {A : Type 0} {s : JsonScalar A} {Fits : A → Type 0} {d : A}
    (kept : JsonKept s Fits d) where
  pub value_or-default :
      (o : Option A)
      → OnOption Fits o
      → value_or s d (value_at s d o undefined) ≡ ok (some (get_or d o))
  unfolding value_or value_at
  value_or-default none fits = refl
  value_or-default (some a) fits = elim (Bool-cases (s.same a d)) [
    | inl default ↦ rw default (rw (kept.same_lem a default))
    | inr other ↦ rw other (rw (kept.agrees.set_lem a) (rw (kept.agrees.from-to a fits)))
  ]

  pub either_or-default :
      (o : Option A)
      → OnOption Fits o
      → either_or s d (value_at s d o undefined) undefined ≡ ok (some (get_or d o))
  unfolding either_or value_at
  either_or-default none fits = refl
  either_or-default (some a) fits = elim (Bool-cases (s.same a d)) [
    | inl default ↦ rw default (rw (kept.same_lem a default))
    | inr other ↦ rw other (rw (kept.agrees.set_lem a) (rw (kept.agrees.from-to a fits)))
  ]

-- The properties that are read under either of two keys.
module _ {A : Type 0} {to : A → Js} {from : Js → Outcome A} {fill : A → A} {Fits : A → Type 0}
    (c : JsonCodec to from fill Fits) where
  pub array_either-fill :
      (l : List A)
      → OnList Fits l
      → array_either from (array_at to l undefined) undefined ≡ ok (map fill l)
  unfolding array_either
  array_either-fill [] fits = refl
  array_either-fill (a ∷ l) fits = map_items-fill c (a ∷ l) fits

  pub message_either-fill :
      (o : Option A)
      → OnOption Fits o
      → message_either from (message_at to o undefined) undefined ≡ ok (Option.map fill o)
  unfolding message_either
  message_either-fill none fits = refl
  message_either-fill (some a) fits = rw (c.shown a) (rw (c.from-to a fits))

pub scalar_codec :
    {A : Type 0} {s : JsonScalar A} {Fits : A → Type 0}
    → JsonAgrees s Fits
    → JsonCodec s.to s.from (λ v. v) Fits
scalar_codec agrees = record { from-to = agrees.from-to; shown = agrees.set_lem }

-- Texts and flags fit as they are.
module _ (o : Option String) (d : String) where
  pub value_or-text : value_or js_text d (value_at js_text d o undefined) ≡ ok (some (get_or d o))
  value_or-text = value_or-default (js_text-kept d) o (Any-option o)

  pub either_or-text :
      either_or js_text d (value_at js_text d o undefined) undefined ≡ ok (some (get_or d o))
  either_or-text = either_or-default (js_text-kept d) o (Any-option o)

module _ (o : Option Bool) (d : Bool) where
  pub value_or-flag : value_or js_flag d (value_at js_flag d o undefined) ≡ ok (some (get_or d o))
  value_or-flag = value_or-default (js_flag-kept d) o (Any-option o)

  pub either_or-flag :
      either_or js_flag d (value_at js_flag d o undefined) undefined ≡ ok (some (get_or d o))
  either_or-flag = either_or-default (js_flag-kept d) o (Any-option o)

pub message_field_either-obj :
    {A : Type 0} (f : Js → Outcome A) (k j : String) (ps : Props)
    → message_field_either f k j (obj ps) ≡ message_either f (own k ps) (own j ps)
unfolding message_field_either
message_field_either-obj f k j ps = refl

pub ruleset proto_laws = (
  own_laws, read_laws, own-set_or, field_or-obj, field_either-obj, message_field_either-obj,
  value_or-text, either_or-text, value_or-flag, either_or-flag,
)
