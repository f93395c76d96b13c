-- ===== src/Common/Assoc.antt =====
-- Objects used as dictionaries, `Record<string, V>`: an association list in insertion order, in which
-- an assignment to a key that is present keeps its place.
use mathlib.Core.Path.{◌≡◌, refl}
use mathlib.Core.List.{List, [], ◌∷◌}
use mathlib.Core.Option.{Option, none, some}
use native.Mathlib.Omega.{arith}
use shatters.Common.Tests.{if◌then◌else◌}
use shatters.Common.Strings.{Text, text_eq, text_eq_iff}

module _ {ℓ} {V : Type ℓ} where
  -- `object[key]`; `none` is `undefined`.
  unfoldable pub lookup : Text → List (Text × V) → Option V
  lookup k [] = none
  lookup k ((j, v) ∷ m) = if text_eq j k then some v else lookup k m

  -- `object[key] = value`.
  unfoldable pub assign : Text → V → List (Text × V) → List (Text × V)
  assign k v [] = (k, v) ∷ []
  assign k v ((j, w) ∷ m) = if text_eq j k then (j, v) ∷ m else (j, w) ∷ assign k v m

  -- No key stands twice.
  abbrev pub IsDistinct : List (Text × V) → Type ℓ
  IsDistinct [] = Unit
  IsDistinct ((k, v) ∷ m) = (lookup k m ≡ none) × IsDistinct m

  pub lookup-assign :
      (j k : Text) (v : V) (m : List (Text × V))
      → lookup j (assign k v m) ≡ (if text_eq k j then some v else lookup j m)
  unfolding lookup assign
  lookup-assign j k v [] = refl
  lookup-assign j k v ((i, w) ∷ m) =
      ground (arith, text_eq_iff k j, text_eq_iff i k, text_eq_iff i j, lookup-assign j k v m)

  pub assign-IsDistinct :
      (k : Text) (v : V) (m : List (Text × V)) → IsDistinct m → IsDistinct (assign k v m)
  unfolding lookup assign
  assign-IsDistinct k v [] d = (refl, tt)
  assign-IsDistinct k v ((j, w) ∷ m) d =
      ground (
        arith,
        text_eq_iff j k,
        text_eq_iff k j,
        lookup-assign j k v m,
        assign-IsDistinct k v m d.1,
      )

  -- `map.delete(key)`.
  unfoldable pub remove_key : Text → List (Text × V) → List (Text × V)
  remove_key k [] = []
  remove_key k ((j, v) ∷ m) = if text_eq j k then remove_key k m else (j, v) ∷ remove_key k m

  pub lookup-remove_key :
      (j k : Text) (m : List (Text × V))
      → lookup j (remove_key k m) ≡ (if text_eq k j then none else lookup j m)
  unfolding lookup remove_key
  lookup-remove_key j k [] = ground arith
  lookup-remove_key j k ((i, w) ∷ m) =
      ground (arith, text_eq_iff k j, text_eq_iff i k, text_eq_iff i j, lookup-remove_key j k m)
