-- ===== src/MultiCity/Countries.antt =====
-- Trips through several countries: `_optimize_multi_country` of services/multi_city_optimizer.py.
use Prim.Native.String.{String}
use text.Mathlib.Text.{◌==◌ as str_eq}
use goveling_ml.Prelude.{
  ℕ, ◌+◌, Bool, true, false, Option, none, some, List, [], ◌∷◌, ◌++◌, map, max, leb, if◌then◌else◌,
  length, sum, filter_by,
}
use goveling_ml.Prelude.Int.{ℤ, pos, ◌+ℤ◌, ◌-ℤ◌, eqb_ℤ}
use goveling_ml.Prelude.Exceptions.{Result, ok, and_then}
use goveling_ml.Prelude.Table.{lookup, set}
use goveling_ml.Schedule.Windows.{or_default}
use goveling_ml.MultiCity.{Poi, City}
use goveling_ml.MultiCity.Sequence.{has_name}
use goveling_ml.MultiCity.Shares.{share}
use goveling_ml.MultiCity.Full.{Item, Trip, optimize_intercity_hybrid}

abbrev pub Groups : Type 0
Groups = List (String × List City)

abbrev pub group_of : String → Groups → List City
group_of country groups = or_default (lookup str_eq country groups) []

abbrev pub group_from : Groups → List City → Groups
group_from groups [] = groups
group_from groups (c ∷ cs) =
    group_from (set str_eq c.country (group_of c.country groups ++ c ∷ []) groups) cs

unfoldable pub group_cities_by_country : List City → Groups
group_cities_by_country cities = group_from [] cities

abbrev pub any_named : String → List City → Bool
any_named s [] = false
any_named s (c ∷ cs) = let rest = any_named s cs in if has_name s c then true else rest

abbrev pub country_of : String → Groups → Option String
country_of s [] = none
country_of s ((country, cities) ∷ groups) =
    let rest = country_of s groups in if any_named s cities then some country else rest

-- `countries.remove(country)`
abbrev pub remove : String → List String → List String
remove k [] = []
remove k (j ∷ ks) = let rest = remove k ks in if str_eq j k then ks else j ∷ rest

abbrev pub move_first : Option String → List String → List String
move_first none countries = countries
move_first (some country) countries = country ∷ remove country countries

abbrev pub starting_with : Option String → Groups → List String
starting_with none groups = map (λ g. g.0) groups
starting_with (some s) groups =
    if str_eq s ""
    then map (λ g. g.0) groups
    else move_first (country_of s groups) (map (λ g. g.0) groups)

unfoldable pub optimize_country_sequence : Groups → Option String → List String
optimize_country_sequence groups start_city =
    if leb (length groups) 1 then map (λ g. g.0) groups else starting_with start_city groups

abbrev pub country_weights : Groups → List (String × ℕ)
country_weights groups = map (λ g. (g.0, max 1 (sum (map (λ c. length c.pois) g.1)))) groups

unfoldable pub distribute_days_among_countries : Groups → ℕ → List (String × ℕ)
distribute_days_among_countries groups total_days =
    let weights = country_weights groups in
    map (λ e. (e.0, share e.1 (sum (map (λ f. f.1) weights)) total_days)) weights

-- `for day_offset, day_pois in ...: daily_schedules[current_day + day_offset - 1] = day_pois`
abbrev pub shift_days : ℕ → List (ℤ × List Poi) → List (ℤ × List Poi) → List (ℤ × List Poi)
shift_days current [] schedules = schedules
shift_days current ((day, pois) ∷ rest) schedules =
    shift_days current rest (set eqb_ℤ (pos current +ℤ day -ℤ pos 1) pois schedules)

module _ (lower : String → String) (geodesic : ℤ × ℤ → ℤ × ℤ → ℕ)
    (integrator : List Poi → ℤ → Result (Option (List Item))) where
  abbrev pub add_country : ℕ → Trip → Trip → Trip
  add_country current trip itinerary = record {
    cities = trip.cities ++ itinerary.cities;
    daily_schedules = shift_days current itinerary.daily_schedules trip.daily_schedules;
  }

  abbrev pub visit_countries : Groups → List (String × ℕ) → List String → ℕ → Trip → Result Trip
  visit_countries groups days [] current trip = ok trip
  visit_countries groups days (k ∷ ks) current trip =
      let n = or_default (lookup str_eq k days) 0 in
      and_then (optimize_intercity_hybrid lower geodesic integrator (group_of k groups) n none)
        (λ itinerary.
          visit_countries groups days ks (current + n) (add_country current trip itinerary))

  unfoldable pub optimize_multi_country : List City → ℕ → Option String → Result Trip
  unfolding group_cities_by_country optimize_country_sequence distribute_days_among_countries
      optimize_intercity_hybrid
  optimize_multi_country cities days start_city =
      let groups = group_cities_by_country cities in
      visit_countries groups (distribute_days_among_countries groups days)
        (optimize_country_sequence groups start_city) 1
        (record { cities = []; daily_schedules = [] })

-- A night in every city with several places.
unfoldable pub plan_international_accommodations : List City → List City
plan_international_accommodations cities = filter_by (λ c. leb 2 (length c.pois)) cities
