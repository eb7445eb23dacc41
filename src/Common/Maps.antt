-- ===== src/Common/Maps.antt =====
-- Maps with text keys, as association lists in insertion order: `Map` and plain objects.
use mathlib.Core.Path.{◌≡◌, refl}
use mathlib.Core.Option.{Option, none, some}
use mathlib.Core.List.{List, [], ◌∷◌}
use native.Mathlib.Omega.{arith}
use patchlab.Common.Tests.{if◌then◌else◌}
use patchlab.Common.Strings.{Text, text_eq, text_eq_iff}

abbrev pub Assoc {ℓ} : Type ℓ → Type ℓ
Assoc V = List (Text × V)

module _ {ℓ} {V : Type ℓ} where
  -- `map.get(key)`
  unfoldable pub get : Assoc V → Text → Option V
  get [] k = none
  get ((j, v) ∷ m) k = if text_eq j k then some v else get m k

  -- `map.set(key, value)`: a key that is there keeps its place
  unfoldable pub put : Assoc V → Text → V → Assoc V
  put [] k v = (k, v) ∷ []
  put ((j, w) ∷ m) k v = if text_eq j k then (j, v) ∷ m else (j, w) ∷ put m k v

  pub get-put :
      (m : Assoc V) (k j : Text) (v : V)
      → get (put m k v) j ≡ (if text_eq k j then some v else get m j)
  unfolding get put
  get-put [] k j v = refl
  get-put ((i, w) ∷ m) k j v =
      ground (arith, text_eq_iff k j, text_eq_iff i k, text_eq_iff i j, get-put m k j v)
