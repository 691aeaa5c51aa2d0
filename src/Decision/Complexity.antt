-- ===== src/Decision/Complexity.antt =====
-- `_analyze_complexity` of utils/ortools_decision_engine.py. The spread is kept as its square, in
-- units of 100 micrometres: a millionth of a degree of latitude is 1110 units, of longitude 888.
use Prim.Native.String.{String}
use text.Mathlib.Text.{◌==◌ as str_eq}
use goveling_ml.Prelude.{
  ℕ, ◌+◌, ◌*◌, Bool, true, false, ◌||◌, not, Option, none, some, List, [], ◌∷◌, map, min, ltb, leb,
  ◌==◌, if◌then◌else◌, length, filter_by,
}
use goveling_ml.Prelude.Int.{ℤ, pos, abs, ◌-ℤ◌, ltb_ℤ, leb_ℤ}
use goveling_ml.Schedule.Windows.{or_default}
use goveling_ml.Decision.{
  Place, Request, TransportComplexity, simple, medium, complex, ItineraryComplexity,
}

abbrev pub is_truthy : Option ℤ → Bool
is_truthy none = false
is_truthy (some z) = not (abs z == 0)

abbrev pub or_else {ℓ} : {A : Type ℓ} → Option A → Option A → Option A
or_else none o = o
or_else (some a) o = some a

-- `[p.get(key, p.get(long_key, 0)) for p in places if p.get(key) or p.get(long_key)]`
abbrev pub coordinates : (Place → Option ℤ) → (Place → Option ℤ) → List Place → List ℤ
coordinates key long_key places =
    map (λ p. or_default (or_else (key p) (long_key p)) (pos 0))
      (filter_by (λ p. is_truthy (key p) || is_truthy (long_key p)) places)

abbrev pub larger : ℤ → ℤ → ℤ
larger a b = if ltb_ℤ a b then b else a

abbrev pub smaller : ℤ → ℤ → ℤ
smaller a b = if ltb_ℤ b a then b else a

abbrev pub maximum : ℤ → List ℤ → ℤ
maximum best [] = best
maximum best (z ∷ zs) = maximum (larger best z) zs

abbrev pub minimum : ℤ → List ℤ → ℤ
minimum best [] = best
minimum best (z ∷ zs) = minimum (smaller best z) zs

abbrev pub range_of : ℤ → List ℤ → ℕ
range_of z zs = abs (maximum z zs -ℤ minimum z zs)

abbrev pub square : ℕ → ℕ
square n = n * n

abbrev pub spread_of : List ℤ → List ℤ → ℕ
spread_of [] lons = 0
spread_of (a ∷ lats) [] = 0
spread_of (a ∷ lats) (b ∷ lons) = square (range_of a lats * 1110) + square (range_of b lons * 888)

unfoldable pub calculate_geographic_spread : List Place → ℕ
calculate_geographic_spread places =
    if ltb (length places) 2
    then 0
    else spread_of (coordinates (λ p. p.lat) (λ p. p.latitude) places)
        (coordinates (λ p. p.lon) (λ p. p.longitude) places)

-- The square of a number of kilometres in those units.
abbrev pub square_km : ℕ → ℕ
square_km km = square (km * 10000000)

abbrev pub member : String → List String → Bool
member s [] = false
member s (t ∷ ts) = if str_eq s t then true else member s ts

abbrev pub distinct : List String → List String
distinct [] = []
distinct (s ∷ ss) = let rest = distinct ss in if member s rest then rest else s ∷ rest

-- The size of the set of types.
unfoldable pub calculate_semantic_diversity : List Place → ℕ
calculate_semantic_diversity places =
    length (distinct (map (λ p. or_default (or_else p.kind p.place_type) "unknown") places))

abbrev pub one_if_set : Option ℕ → ℕ
one_if_set none = 0
one_if_set (some n) = if n == 0 then 0 else 1

unfoldable pub count_time_constraints : Request → ℕ
count_time_constraints r =
    one_if_set r.daily_start_hour
    + one_if_set r.daily_end_hour
    + r.time_windows
    + r.fixed_activities

unfoldable pub analyze_transport_complexity : Request → TransportComplexity
analyze_transport_complexity r =
    let mode = or_default r.transport_mode "driving" in
    if str_eq mode "walking"
    then simple
    else if str_eq mode "driving" || str_eq mode "bicycling"
    then medium
    else if str_eq mode "transit" || str_eq mode "mixed"
    then complex
    else medium

abbrev pub places_score : ℕ → ℕ
places_score n = if leb 10 n then 300 else if leb 6 n then 200 else if leb 3 n then 100 else 0

abbrev pub days_score : ℤ → ℕ
days_score d =
    if leb_ℤ (pos 5) d
    then 200
    else if leb_ℤ (pos 3) d
    then 100
    else if leb_ℤ (pos 2) d
    then 50
    else 0

abbrev pub spread_score : ℕ → ℕ
spread_score s =
    if leb (square_km 100) s
    then 200
    else if leb (square_km 50) s
    then 150
    else if leb (square_km 20) s
    then 100
    else if leb (square_km 5) s
    then 50
    else 0

abbrev pub transport_weight : TransportComplexity → ℕ
transport_weight simple = 0
transport_weight medium = 50
transport_weight complex = 100

unfoldable pub calculate_overall_complexity :
    (places : ℕ) (days : ℤ) (spread diversity constraints : ℕ) → TransportComplexity → ℕ
calculate_overall_complexity places days spread diversity constraints transport =
    min
      (places_score places
        + days_score days
        + spread_score spread
        + min (diversity * 30) 150
        + min (constraints * 20) 100
        + transport_weight transport)
      1000

unfoldable pub analyze_complexity : Request → ItineraryComplexity
unfolding calculate_geographic_spread calculate_semantic_diversity count_time_constraints
    analyze_transport_complexity calculate_overall_complexity
analyze_complexity r =
    let n = length r.places in
    let days = or_default r.days_between (pos 1) in
    let spread = calculate_geographic_spread r.places in
    let diversity = calculate_semantic_diversity r.places in
    let constraints = count_time_constraints r in
    let transport = analyze_transport_complexity r in
    record {
      places_count = n;
      days_count = days;
      spread_square = spread;
      semantic_diversity = diversity;
      time_constraints = constraints;
      transport_complexity = transport;
      overall_score = calculate_overall_complexity n days spread diversity constraints transport;
    }
