-- ===== src/Tests/Days.antt =====
-- A day in Santiago for the planner of utils/hybrid_optimizer_v31.py.
use Prim.Native.String.{String}
use mathlib.Core.List.{map}
use goveling_ml.Prelude.{ℕ, ◌≤◌, ◌≡◌, ◌⊎◌, refl, some, none, List, [], ◌∷◌, length}
use goveling_ml.Prelude.Int.{negsuc}
use goveling_ml.Prelude.Sort.{sorted}
use goveling_ml.Schedule.Data.{TimeWindow, Location, Place, HomeBase, Cluster, ActivityItem, Eta}
use goveling_ml.Schedule.Windows.{
  get_preferred_time_window, find_best_time_slot, estimate_activity_duration,
  sort_places_by_time_preference, time_preference_score, decide_mode_by_distance,
}
use goveling_ml.Schedule.Route.{
  visit, choose_start, make_transfer, make_activity, activity_places,
  route_cluster_with_time_windows,
}
use goveling_ml.Schedule.Slots.{FitsSome, find_best_time_slot_lem}
use goveling_ml.Schedule.Timeline.{IsFeasible, route_cluster-IsFeasible}
use goveling_ml.Schedule.Prefix.{Visits, route_cluster-Visits}

program : Unit {0}
unfolding route_cluster_with_time_windows visit choose_start make_transfer make_activity
    find_best_time_slot get_preferred_time_window estimate_activity_duration
    sort_places_by_time_preference time_preference_score decide_mode_by_distance sorted
program = tt

-- The types of the sample are in lower case.
abbrev lower : String → String
lower s = s

abbrev daily : TimeWindow
daily = record { start = 540; end = 1080 }

-- Every way takes 12.5 minutes over 1.5 km.
abbrev eta : ℕ → Location → Location → Eta
eta n a b = record { distance_m = 1500; duration_thousandths = 12500 }

abbrev location : ℕ → ℕ → Location
location a b = record { lat = negsuc a; lon = negsuc b }

abbrev place : String → String → ℕ → ℕ → Place
place name kind a b = record {
  name = name;
  location = location a b;
  kind = some kind;
  place_type = none;
  priority = none;
  rating = none;
  image = none;
  address = none;
  quality_flag = none;
}

abbrev hotel : HomeBase
hotel = record {
  name = "Hotel";
  location = location 33440000 70650000;
  rating = none;
  address = none;
}

abbrev cluster : Cluster
cluster = record {
  centroid = location 33440000 70650000;
  places =
      place "Museo" "museum" 33437000 70634000
      ∷ place "Mercado" "restaurant" 33434000 70652000
      ∷ place "Hostal" "accommodation" 33434000 70652000
      ∷ [];
  home_base = some hotel;
  home_base_source = "recommended";
}

abbrev spans : ActivityItem → ℕ × ℕ
spans a = (a.start_time, a.end_time)

-- The museum opens at 10, the restaurant serves from 12.
day_runs :
    let (activities, timeline) =
      route_cluster_with_time_windows lower eta daily "walk" cluster 540 in
    (map spans activities ≡ (600, 720) ∷ (732, 822) ∷ []) × (length timeline ≡ 5)
unfolding program
day_runs = (refl, refl)

-- After the lunch hours only dinner fits, which is after the end of the day: the visit starts at once.
afternoon_runs :
    (find_best_time_slot 960 90 (get_preferred_time_window lower "restaurant" daily) ≡ 1140)
    × (choose_start lower eta daily "walk" (place "Mercado" "restaurant" 1 2) 960 ≡ some 960)
unfolding program
afternoon_runs = (refl, refl)

-- The place does not fit, but the way to it is in the timeline.
late_runs :
    let (activities, timeline) =
      route_cluster_with_time_windows lower eta daily "walk" cluster 1000 in
    (activities ≡ []) × (length timeline ≡ 1)
unfolding program
late_runs = (refl, refl)

abbrev meals : List TimeWindow
meals = record { start = 720; end = 900 } ∷ record { start = 1140; end = 1320 } ∷ []

all_visited :
    length (route_cluster_with_time_windows lower eta daily "walk" cluster 540).0
    ≡ length (activity_places lower eta daily "walk" cluster.places 540)
unfolding program
all_visited = refl

route_cluster-IsFeasible_example :
    IsFeasible daily 540 hotel.location
      (route_cluster_with_time_windows lower eta daily "walk" cluster 540).1
route_cluster-IsFeasible_example =
    route_cluster-IsFeasible lower eta daily "walk" cluster 540 hotel.location all_visited

route_cluster-Visits_example :
    Visits lower eta daily "walk" 0 540 hotel.location
      (route_cluster_with_time_windows lower eta daily "walk" cluster 540).0
      (activity_places lower eta daily "walk" cluster.places 540)
route_cluster-Visits_example =
    route_cluster-Visits lower eta daily "walk" cluster 540 hotel.location

find_best_time_slot_lem_example :
    (590 ≤ find_best_time_slot 590 60 meals)
    × (FitsSome meals 60 (find_best_time_slot 590 60 meals)
        ⊎ ((find_best_time_slot 590 60 meals ≡ 590) × ((t : ℕ) → 590 ≤ t → ¬ FitsSome meals 60 t)))
find_best_time_slot_lem_example = find_best_time_slot_lem 590 60 meals
