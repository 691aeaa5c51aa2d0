-- ===== src/MultiCity/Sequence.antt =====
-- `find_optimal_city_sequence` of services/intercity_service.py. `geodesic` is geopy's distance
-- between two pairs of coordinates, in metres.
use Prim.Native.String.{String}
use text.Mathlib.Text.{◌==◌ as str_eq}
use goveling_ml.Prelude.{
  ℕ, zero, suc, Bool, not, Option, none, some, List, [], ◌∷◌, leb, if◌then◌else◌, length, filter_by,
}
use goveling_ml.Prelude.Int.{ℤ}
use goveling_ml.MultiCity.{City}

abbrev pub has_name : String → City → Bool
has_name s c = str_eq c.name s

-- `next((c for c in cities if c.name == start_city), cities[0])`
abbrev pub find_named : String → City → List City → City
find_named s default [] = default
find_named s default (c ∷ cs) =
    let rest = find_named s default cs in if has_name s c then c else rest

-- No start city, or an empty name: the first city.
abbrev pub first_stop : Option String → City → List City → City
first_stop none c cs = c
first_stop (some s) c cs = if str_eq s "" then c else find_named s c (c ∷ cs)

abbrev pub others : City → List City → List City
others current cities = filter_by (λ c. not (has_name current.name c)) cities

module _ (geodesic : ℤ × ℤ → ℤ × ℤ → ℕ) where
  abbrev pub distance_to : City → City → ℕ
  distance_to a b = geodesic (a.center_lat, a.center_lon) (b.center_lat, b.center_lon)

  -- The first city with the least distance, and the cities without it.
  abbrev pub nearest : City → City → List City → City × List City
  nearest current c [] = (c, [])
  nearest current c (d ∷ ds) =
      let (best, rest) = nearest current d ds in
      if leb (distance_to current c) (distance_to current best)
      then (c, d ∷ ds)
      else (best, c ∷ rest)

  -- The loop takes one city each time, so the number of the cities is enough fuel.
  abbrev pub visit_from : ℕ → City → List City → List City
  visit_from fuel current [] = current ∷ []
  visit_from zero current (c ∷ cs) = current ∷ []
  visit_from (suc fuel) current (c ∷ cs) =
      let (next, rest) = nearest current c cs in
      let later = visit_from fuel next rest in current ∷ later

  unfoldable pub find_optimal_city_sequence : List City → Option String → List City
  find_optimal_city_sequence [] start_city = []
  find_optimal_city_sequence (c ∷ []) start_city = c ∷ []
  find_optimal_city_sequence (c ∷ d ∷ cs) start_city =
      let current = first_stop start_city c (d ∷ cs) in
      let remaining = others current (c ∷ d ∷ cs) in visit_from (length remaining) current remaining
