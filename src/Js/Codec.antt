-- ===== src/Js/Codec.antt =====
-- A message of web/src/generated in JSON as its users see it, and the properties that hold other
-- messages.
use sample_grpc_service.Prelude.{◌≡◌, refl, true, Option, none, some, List, [], ◌∷◌, map}
use sample_grpc_service.Prelude.Outcome.{Outcome, ok}
use sample_grpc_service.Js.{
  Js, undefined, items, is_set, map_items, array_field, message_or_undefined,
}
use sample_grpc_service.Js.Laws.{array_at, message_at}
use sample_grpc_service.Wire.Runs.{OnOption, OnList}
use mathlib.Core.Option

-- `fromJSON` of what `toJSON` gives is the message with its missing values filled in.
pub record JsonCodec {A : Type 0} (to : A → Js) (from : Js → Outcome A) (fill : A → A)
    (Fits : A → Type 0) : Type 0 where
  pub from-to : (a : A) → Fits a → from (to a) ≡ ok (fill a)
  pub shown : (a : A) → is_set (to a) ≡ true

module _ {A : Type 0} {to : A → Js} {from : Js → Outcome A} {fill : A → A} {Fits : A → Type 0}
    (c : JsonCodec to from fill Fits) where
  pub map_items-fill : (l : List A) → OnList Fits l → map_items from (items to l) ≡ ok (map fill l)
  unfolding map_items items
  map_items-fill [] fits = refl
  map_items-fill (a ∷ l) fits = rw (c.from-to a fits.0) (rw (map_items-fill l fits.1))

  pub array-fill :
      (l : List A) → OnList Fits l → array_field from (array_at to l undefined) ≡ ok (map fill l)
  unfolding array_field
  array-fill [] fits = refl
  array-fill (a ∷ l) fits = map_items-fill (a ∷ l) fits

  pub message-fill :
      (o : Option A)
      → OnOption Fits o
      → message_or_undefined from (message_at to o undefined) ≡ ok (Option.map fill o)
  unfolding message_or_undefined
  message-fill none fits = refl
  message-fill (some a) fits = rw (c.shown a) (rw (c.from-to a fits))
