-- ===== src/Partial.antt =====
-- The `??` and `?.` of the generated `fromPartial`.
use sample_grpc_service.Prelude.{◌≡◌, refl, Option, none, some, List, [], ◌∷◌, map}
use mathlib.Core.Option

-- `o ?? d`
abbrev pub get_or {ℓ} : {A : Type ℓ} → A → Option A → A
get_or d none = d
get_or d (some a) = a

module _ {ℓ κ} {A : Type ℓ} {B : Type κ} (f : A → B) (g : B → A) (h : (a : A) → g (f a) ≡ a) where
  pub map-inverse : (l : List A) → map g (map f l) ≡ l
  map-inverse [] = refl
  map-inverse (a ∷ l) = rw (h a) (rw (map-inverse l))

  pub Option-map-inverse : (o : Option A) → Option.map g (Option.map f o) ≡ o
  Option-map-inverse none = refl
  Option-map-inverse (some a) = rw (h a)

-- `from_partial` of the whole of a message is the message with its missing values filled in.
pub record Fills {ℓ κ} {A : Type ℓ} {B : Type κ} (whole : A → B) (from_partial : B → A)
    (fill : A → A) : Type ℓ where
  pub fills : (a : A) → from_partial (whole a) ≡ fill a

module _ {ℓ κ} {A : Type ℓ} {B : Type κ} {whole : A → B} {from_partial : B → A} {fill : A → A}
    (f : Fills whole from_partial fill) where
  pub map-fill : (l : List A) → map from_partial (map whole l) ≡ map fill l
  map-fill [] = refl
  map-fill (a ∷ l) = rw (f.fills a) (rw (map-fill l))

  pub Option-map-fill :
      (o : Option A) → Option.map from_partial (Option.map whole o) ≡ Option.map fill o
  Option-map-fill none = refl
  Option-map-fill (some a) = rw (f.fills a)
