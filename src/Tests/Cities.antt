-- ===== src/Tests/Cities.antt =====
-- Trips through several cities of services/multi_city_optimizer_simple.py.
use Prim.Native.String.{String}
use mathlib.Core.List.{Perm}
use mathlib.Core.List.Perm
use mathlib.Core.Bool.{false≢true}
use text.Mathlib.Text.{◌==◌ as str_eq}
use text.Mathlib.TextEquality.{eq_iff}
use goveling_ml.Prelude.{
  ℕ, ◌≡◌, refl, sym, ◌∙◌, false, Option, none, some, List, [], ◌∷◌, map, arith, All,
}
use goveling_ml.Prelude.Int.{ℤ, pos, abs, ◌-ℤ◌, ◌≤ℤ◌}
use goveling_ml.Prelude.Sums.{sum_ℤ}
use goveling_ml.MultiCity.{Poi, City}
use goveling_ml.MultiCity.Sequence.{find_optimal_city_sequence}
use goveling_ml.MultiCity.Tour.{IsDistinct, IsGreedy, find_optimal_city_sequence-IsGreedy}
use goveling_ml.MultiCity.Shares.{
  simple_weight, city_weights, max_city, round_half_even, distribute_days_among_cities,
}
use goveling_ml.MultiCity.Totals.{values, HasDays, distribute_days_among_cities_lem}
use goveling_ml.MultiCity.Plan.{range, simple_daily_distribution, optimize_intercity_hybrid_simple}
use goveling_ml.MultiCity.Slices.{join}
use goveling_ml.MultiCity.Trip.{pois_of, optimize_intercity_hybrid_simple_lem}
use goveling_ml.Prelude.Exceptions.{Result, ok, err, zero_division, attribute_error}
use goveling_ml.MultiCity.Shares.{bonus_weight}
use goveling_ml.MultiCity.Strategy.{
  OptimizationConfig, single_city_ortools, multi_country_complex, international_complex,
  determine_optimization_strategy, analyze_multi_city_complexity,
}
use goveling_ml.MultiCity.Full.{
  Item, day_end, other, simple_distribution, convert_ortools_to_daily_schedule,
  optimize_city_pois_with_ortools, optimize_intercity_hybrid,
}
use goveling_ml.MultiCity.Failure.{any_stranded, RaisesIf, optimize_intercity_hybrid-RaisesIf}
use goveling_ml.MultiCity.Countries.{
  group_cities_by_country, optimize_country_sequence, distribute_days_among_countries,
}
use goveling_ml.MultiCity.Itinerary.{Outcome, optimize_multi_city_itinerary}
use goveling_ml.MultiCity.Complete.{scheduled, optimize_multi_city_itinerary-perm}

abbrev poi : String → Poi
poi name = record { name = name; city = none; country = none }

abbrev city : String → ℕ → List Poi → City
city name lon pois = record {
  name = name;
  center_lat = pos 48000000;
  center_lon = pos lon;
  country = "Chile";
  pois = pois;
}

abbrev a : City
a = city "Arica" 0 (poi "Morro" ∷ poi "Chinchorro" ∷ poi "Azapa" ∷ [])

abbrev b : City
b = city "Calama" 9000000 (poi "Chiu Chiu" ∷ [])

abbrev c : City
c = city "Iquique" 2000000 (poi "Baquedano" ∷ poi "Cavancha" ∷ [])

abbrev along : ℤ × ℤ → ℤ × ℤ → ℕ
along p q = abs (p.1 -ℤ q.1)

ties : map (λ n. round_half_even n 2) (1 ∷ 3 ∷ 5 ∷ 6 ∷ []) ≡ 0 ∷ 2 ∷ 2 ∷ 3 ∷ []
ties = refl

nearest_first :
    map (λ x. x.name) (find_optimal_city_sequence along (a ∷ b ∷ c ∷ []) none)
    ≡ "Arica" ∷ "Iquique" ∷ "Calama" ∷ []
unfolding find_optimal_city_sequence
nearest_first = refl

from_calama :
    map (λ x. x.name) (find_optimal_city_sequence along (a ∷ b ∷ c ∷ []) (some "Calama"))
    ≡ "Calama" ∷ "Iquique" ∷ "Arica" ∷ []
unfolding find_optimal_city_sequence
from_calama = refl

three_days :
    map (λ e. map (λ p. p.name) e.1) (simple_daily_distribution a.pois (pos 2))
    ≡ ("Morro" ∷ []) ∷ ("Chinchorro" ∷ "Azapa" ∷ []) ∷ []
unfolding simple_daily_distribution
three_days = refl

-- Four cities with one place each and six days: every share of one and a half days is rounded up,
-- and the first city is left with no day, so that its place is lost.
abbrev four : List City
four =
    city "A" 0 (poi "1" ∷ [])
    ∷ city "B" 1 (poi "2" ∷ [])
    ∷ city "C" 2 (poi "3" ∷ [])
    ∷ city "D" 3 (poi "4" ∷ [])
    ∷ []

no_day_left :
    map (λ e. e.1) (distribute_days_among_cities simple_weight four 6)
    ≡ pos 0 ∷ pos 2 ∷ pos 2 ∷ pos 2 ∷ []
unfolding distribute_days_among_cities
no_day_left = refl

place_lost :
    map
      (λ p. p.name)
      (join (map (λ e. e.1) (optimize_intercity_hybrid_simple along four 6 none).daily_schedules))
    ≡ "2" ∷ "3" ∷ "4" ∷ []
unfolding optimize_intercity_hybrid_simple find_optimal_city_sequence distribute_days_among_cities
    simple_daily_distribution
place_lost = refl

other_text : {s t : String} → str_eq s t ≡ false → ¬ (s ≡ t)
other_text {s = s} {t = t} differ p = false≢true (sym differ ∙ (eq_iff s t).1 p)

distinct : IsDistinct (a ∷ b ∷ c ∷ [])
distinct = ((other_text refl, (other_text refl, tt)), ((other_text refl, tt), (tt, tt)))

find_optimal_city_sequence-IsGreedy_example :
    Perm (find_optimal_city_sequence along (a ∷ b ∷ c ∷ []) none) (a ∷ b ∷ c ∷ [])
    × IsGreedy along (find_optimal_city_sequence along (a ∷ b ∷ c ∷ []) none)
find_optimal_city_sequence-IsGreedy_example =
    find_optimal_city_sequence-IsGreedy along (a ∷ b ∷ c ∷ []) none distinct

distribute_days_among_cities_lem_example :
    let days = distribute_days_among_cities simple_weight (a ∷ b ∷ c ∷ []) 2 in
    (sum_ℤ (values days) ≡ pos 2)
    × All (HasDays (max_city (city_weights simple_weight (a ∷ b ∷ c ∷ [])))) days
distribute_days_among_cities_lem_example =
    distribute_days_among_cities_lem simple_weight a (b ∷ c ∷ []) 2

enough :
    All
      (λ e. pos 1 ≤ℤ e.1)
      (distribute_days_among_cities simple_weight
        (find_optimal_city_sequence along (a ∷ b ∷ c ∷ []) none)
        5)
unfolding find_optimal_city_sequence distribute_days_among_cities
enough = (omega arith, (omega arith, (omega arith, tt)))

optimize_intercity_hybrid_simple_lem_example :
    let trip = optimize_intercity_hybrid_simple along (a ∷ b ∷ c ∷ []) 5 none in
    Perm trip.cities (a ∷ b ∷ c ∷ [])
    × (join (map (λ e. e.1) trip.daily_schedules) ≡ pois_of trip.cities)
    × (map (λ e. e.0) trip.daily_schedules ≡ map pos (range 1 5))
optimize_intercity_hybrid_simple_lem_example =
    optimize_intercity_hybrid_simple_lem along a (b ∷ c ∷ []) none 5 distinct enough

-- The integrator has no method of the name that is called.
abbrev broken : List Poi → ℤ → Result (Option (List Item))
broken ps days = err attribute_error

abbrev keep : String → String
keep s = s

-- The same trip with the other optimizer: the shares are the same, so the first city has no day.
crash : optimize_intercity_hybrid keep along broken four 6 none ≡ err zero_division
unfolding optimize_intercity_hybrid find_optimal_city_sequence distribute_days_among_cities
    optimize_city_pois_with_ortools simple_distribution
crash = refl

converted :
    convert_ortools_to_daily_schedule
      (Item.poi (poi "x") ∷ other ∷ Item.poi (poi "y") ∷ day_end ∷ Item.poi (poi "z") ∷ [])
    ≡ (1, poi "x" ∷ poi "y" ∷ []) ∷ (2, poi "z" ∷ []) ∷ []
unfolding convert_ortools_to_daily_schedule
converted = refl

optimize_intercity_hybrid-RaisesIf_example :
    RaisesIf
      (any_stranded
        (distribute_days_among_cities (bonus_weight keep) four 6)
        (find_optimal_city_sequence along four none))
      (optimize_intercity_hybrid keep along broken four 6 none)
optimize_intercity_hybrid-RaisesIf_example =
    optimize_intercity_hybrid-RaisesIf keep along broken (λ ps days. tt) four 6 none

abbrev abroad : City
abroad = record (city "Tacna" 500000 (poi "Arco" ∷ [])) { country = "Peru" }

-- Two countries for a trip of one day: each gets one day.
too_many_days :
    map
      (λ e. e.1)
      (distribute_days_among_countries (group_cities_by_country (a ∷ abroad ∷ b ∷ [])) 1)
    ≡ 1 ∷ 1 ∷ []
unfolding distribute_days_among_countries group_cities_by_country
too_many_days = refl

from_peru :
    optimize_country_sequence (group_cities_by_country (a ∷ abroad ∷ b ∷ [])) (some "Tacna")
    ≡ "Peru" ∷ "Chile" ∷ []
unfolding optimize_country_sequence group_cities_by_country
from_peru = refl

abbrev settings : OptimizationConfig
settings = record { intercity_threshold = 300000; international_threshold = 800000 }

strategies :
    map
      (determine_optimization_strategy along settings)
      ((a ∷ []) ∷ (a ∷ c ∷ []) ∷ (a ∷ b ∷ c ∷ []) ∷ [])
    ≡ single_city_ortools ∷ multi_country_complex ∷ multi_country_complex ∷ []
unfolding determine_optimization_strategy
strategies = refl

analysis : (analyze_multi_city_complexity along (a ∷ b ∷ c ∷ [])).complexity ≡ international_complex
unfolding analyze_multi_city_complexity
analysis = refl

-- The places, in the order of the request.
abbrev northern : List Poi
northern =
    poi "Morro"
    ∷ poi "Chinchorro"
    ∷ poi "Azapa"
    ∷ poi "Chiu Chiu"
    ∷ poi "Baquedano"
    ∷ poi "Cavancha"
    ∷ []

abbrev cluster : List Poi → List City
cluster pois = a ∷ b ∷ c ∷ []

optimize_multi_city_itinerary-perm_example :
    (o : Outcome) × (optimize_multi_city_itinerary along cluster settings northern 5 none ≡ ok o)
    × Perm (scheduled o) northern
optimize_multi_city_itinerary-perm_example =
    optimize_multi_city_itinerary-perm along cluster settings (poi "Morro")
      (poi "Chinchorro" ∷ poi "Azapa" ∷ poi "Chiu Chiu" ∷ poi "Baquedano" ∷ poi "Cavancha" ∷ []) 4
      none (Perm.refl northern) distinct enough
