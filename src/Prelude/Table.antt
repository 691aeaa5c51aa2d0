-- ===== src/Prelude/Table.antt =====
-- Python's `dict` with keys of any type, in the order of insertion; `same` is the equality of keys.
use mathlib.Core.Bool.{Bool}
use mathlib.Core.Option.{Option, none, some}
use mathlib.Core.List.{List, [], ◌∷◌}
use goveling_ml.Prelude.Tests.{if◌then◌else◌}

module _ {ℓ κ} {K : Type ℓ} {V : Type κ} (same : K → K → Bool) where
  abbrev pub lookup : K → List (K × V) → Option V
  lookup k [] = none
  lookup k ((j, v) ∷ d) = let rest = lookup k d in if same j k then some v else rest

  -- `d[k] = v`
  abbrev pub set : K → V → List (K × V) → List (K × V)
  set k v [] = (k, v) ∷ []
  set k v ((j, w) ∷ d) = let rest = set k v d in if same j k then (j, v) ∷ d else (j, w) ∷ rest

  -- `d[k] = f(d[k])`, for a key that is there.
  abbrev pub update : K → (V → V) → List (K × V) → List (K × V)
  update k f [] = []
  update k f ((j, w) ∷ d) =
      let rest = update k f d in if same j k then (j, f w) ∷ d else (j, w) ∷ rest
