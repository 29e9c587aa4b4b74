-- ===== src/Common/Maps.antt =====
-- JavaScript's `Map`: an association list in insertion order, under any key with a test for
-- equality. A key that is set again keeps its place.
use mathlib.Core.Path.{◌≡◌, refl}
use mathlib.Core.Bool.{Bool}
use mathlib.Core.Option.{Option, none, some}
use mathlib.Core.List.{List, [], ◌∷◌}
use native.Mathlib.Omega.{arith}
use mergepay_api.Common.Tests.{if◌then◌else◌, is_some}
use mergepay_api.Common.Strings.{Text, text_eq, text_eq_iff}

module _ {ℓ} {V : Type ℓ} where
  abbrev pub map_get : Text → List (Text × V) → Option V
  map_get k [] = none
  map_get k ((j, v) ∷ m) = if text_eq j k then some v else map_get k m

  abbrev pub map_has : Text → List (Text × V) → Bool
  map_has k m = is_some (map_get k m)

  abbrev pub map_set : Text → V → List (Text × V) → List (Text × V)
  map_set k v [] = (k, v) ∷ []
  map_set k v ((j, w) ∷ m) = if text_eq j k then (j, v) ∷ m else (j, w) ∷ map_set k v m

  pub map_get-set :
      (k j : Text) (v : V) (m : List (Text × V))
      → map_get j (map_set k v m) ≡ (if text_eq k j then some v else map_get j m)
  map_get-set k j v [] = refl
  map_get-set k j v ((i, w) ∷ m) =
      ground (arith, text_eq_iff k j, text_eq_iff i k, text_eq_iff i j, map_get-set k j v m)
