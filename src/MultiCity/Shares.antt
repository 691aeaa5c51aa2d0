-- ===== src/MultiCity/Shares.antt =====
-- `_distribute_days_among_cities` of services/multi_city_optimizer.py and of its simple version. A
-- share of the days is the exact fraction, rounded half to even as Python's `round` does.
use Prim.Native.String.{String}
use text.Mathlib.Text.{◌==◌ as str_eq}
use goveling_ml.Prelude.{
  ℕ, suc, ◌+◌, ◌*◌, ◌/◌, ◌%◌, ◌||◌, List, [], ◌∷◌, map, max, ltb, ◌==◌, if◌then◌else◌, length, sum,
}
use goveling_ml.Prelude.Int.{ℤ, pos, sub_ℕ, ◌+ℤ◌}
use goveling_ml.Prelude.Table.{set, update}
use goveling_ml.MultiCity.{City}

-- The simple version's weight: the number of the places, or 1.
abbrev pub simple_weight : City → ℕ
simple_weight c = if length c.pois == 0 then 1 else length c.pois

-- In halves: the known cities count half as much again.
abbrev pub bonus_weight : (String → String) → City → ℕ
bonus_weight lower c =
    let name = lower c.name in
    if str_eq name "paris"
      || (str_eq name "london"
          || (str_eq name "rome" || (str_eq name "berlin" || str_eq name "madrid")))
    then simple_weight c * 3
    else simple_weight c * 2

-- Python's `round` of n / d.
abbrev pub round_half_even : ℕ → ℕ → ℕ
round_half_even n d =
    let q = n / d in
    let r = n % d in
    if ltb (r + r) d then q else if ltb d (r + r) then suc q else if q % 2 == 0 then q else suc q

abbrev pub share : ℕ → ℕ → ℕ → ℕ
share weight total_weight total_days = max 1 (round_half_even (weight * total_days) total_weight)

abbrev pub weights_from : (City → ℕ) → List City → List (String × ℕ) → List (String × ℕ)
weights_from weight [] d = d
weights_from weight (c ∷ cs) d = weights_from weight cs (set str_eq c.name (weight c) d)

-- The first key with the greatest weight.
abbrev pub heaviest : String × ℕ → List (String × ℕ) → String
heaviest (best, w) [] = best
heaviest (best, w) ((k, v) ∷ d) = heaviest (if ltb w v then (k, v) else (best, w)) d

abbrev pub max_city : List (String × ℕ) → String
max_city [] = ""
max_city (e ∷ d) = heaviest e d

abbrev pub city_weights : (City → ℕ) → List City → List (String × ℕ)
city_weights weight cities = weights_from weight cities []

abbrev pub rounded_days : List (String × ℕ) → ℕ → List (String × ℕ)
rounded_days weights total_days =
    map (λ e. (e.0, share e.1 (sum (map (λ f. f.1) weights)) total_days)) weights

abbrev pub as_days : String × ℕ → String × ℤ
as_days (k, n) = (k, pos n)

abbrev pub adjust : List (String × ℕ) → List (String × ℕ) → ℕ → List (String × ℤ)
adjust weights days total_days =
    let actual = sum (map (λ e. e.1) days) in
    if actual == total_days
    then map as_days days
    else update str_eq (max_city weights) (λ d. d +ℤ sub_ℕ total_days actual) (map as_days days)

unfoldable pub distribute_days_among_cities : (City → ℕ) → List City → ℕ → List (String × ℤ)
distribute_days_among_cities weight [] total_days = []
distribute_days_among_cities weight (c ∷ cs) total_days =
    let weights = city_weights weight (c ∷ cs) in
    adjust weights (rounded_days weights total_days) total_days
