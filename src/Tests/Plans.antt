-- ===== src/Tests/Plans.antt =====
-- A trip of three days from Santiago to a town 400 km away, for the planner of
-- utils/hybrid_optimizer_v31.py.
use Prim.Native.String.{String}
use text.Mathlib.Text.{◌==◌ as str_eq}
use goveling_ml.Prelude.{
  ℕ, ◌/◌, ◌≡◌, refl, some, none, true, false, List, [], ◌∷◌, map, length, arith,
}
use goveling_ml.Prelude.Int.{negsuc, abs, ◌-ℤ◌}
use goveling_ml.Prelude.Sort.{sorted}
use goveling_ml.Prelude.Exceptions.{ok}
use goveling_ml.Schedule.Data.{TimeWindow, Location, Place, HomeBase, Cluster, TransferItem}
use goveling_ml.Schedule.Windows.{
  get_preferred_time_window, find_best_time_slot, estimate_activity_duration,
  sort_places_by_time_preference, time_preference_score, decide_mode_by_distance,
}
use goveling_ml.Schedule.Route.{
  visit, choose_start, make_transfer, make_activity, route_cluster_with_time_windows,
}
use goveling_ml.RouteCache.{RouteInfo, service, RouteCache, routing_service_cached}
use goveling_ml.DayRoute.Data.{
  Scheduled, Transfer, RawSuggestion, EnrichedSuggestion, transfer_dict, Day,
}
use goveling_ml.DayRoute.Free.{
  enrich_suggestions_real, select_types_by_duration_and_day, generate_free_blocks_enhanced,
}
use goveling_ml.DayRoute.Transfers.{
  Naming, Replies, build_enhanced_transfer, get_nearest_named_place, create_intercity_activity,
}
use goveling_ml.DayRoute.Advice.{Recommendation, generate_actionable_recommendations}
use goveling_ml.DayRoute.State.{
  Planner, DayServices, begin_day, take_transfer, add_cluster, day_items, last_item,
}
use goveling_ml.DayRoute.Route.{arrive, stay, route_clusters, route_day_enhanced}
use goveling_ml.DayRoute.Between.{
  RobustReply, passage, insert_transfer, connect, inject_intercity_transfers_between_days,
}
use goveling_ml.DayRoute.Metrics.{calculate_enhanced_metrics}
use goveling_ml.DayRoute.Trip.{
  Wishes, TripPlan, plan_days, plan_assignment, optimize_classic_method,
}
use goveling_ml.DayRoute.Totals.{IsAccounted, optimize_classic_method_lem}
use goveling_ml.DayRoute.Fits.{DayWithin, route_day_enhanced-IsInDay}
use goveling_ml.DayRoute.Links.{IsLinked, inject-IsLinked}
use goveling_ml.DayRoute.Overlap.{IsBlock, HasActivities, route_day_enhanced-Overlap}
use goveling_ml.DayRoute.Offers.{FillsWith, generate_free_blocks_enhanced-FillsWith}

program : Unit {0}
unfolding route_cluster_with_time_windows visit choose_start make_transfer make_activity
    find_best_time_slot get_preferred_time_window estimate_activity_duration
    sort_places_by_time_preference time_preference_score decide_mode_by_distance sorted
    routing_service_cached build_enhanced_transfer get_nearest_named_place create_intercity_activity
    begin_day take_transfer add_cluster arrive stay route_clusters route_day_enhanced
    enrich_suggestions_real select_types_by_duration_and_day generate_free_blocks_enhanced
    generate_actionable_recommendations passage insert_transfer connect
    inject_intercity_transfers_between_days calculate_enhanced_metrics plan_days plan_assignment
program = tt

abbrev at : ℕ → Location
at a = record { lat = negsuc a; lon = negsuc 70000000 }

-- A degree is 111 km, along the meridian.
abbrev distance : Location → Location → ℕ
distance a b = abs (a.lat -ℤ b.lat) / 9

abbrev nobody : Naming
nobody = record {
  hotels = [];
  nearest_place = λ here. ok (some "Plaza" ∷ []);
  nearby_hotel = λ here. ok [];
  lat_lon = λ here. "Lat";
  ubicacion = λ here. "Ubicación";
  starts_with_lat = λ name. str_eq name "Lat";
  is_point_of_interest = λ name. false;
}

abbrev planner : Planner
planner = record {
  distance = distance;
  round_3 = λ a. a;
  lower = λ s. s;
  mentions_restaurant = λ s. str_eq s "restaurant";
  naming = nobody;
  transport_mode = "walk";
  no_original_accommodations = false;
}

abbrev offer : String → String → RawSuggestion
offer name id = record {
  name = name;
  location = at 33441000;
  kind = "park";
  rating = none;
  distance_m = some 900;
  synthetic = some false;
  place_id = some id;
  eta_minutes = some 11;
}

abbrev by_service : ℕ → ℕ → RouteInfo
by_service distance_m duration = record {
  distance_m = distance_m;
  duration = duration;
  source = service "osrm";
  cache_hit = false;
}

-- Between the towns it is 400 km and five hours by car; on foot the service says 3 days.
abbrev replies : Replies
replies = record {
  services = record { multimodal = none; robust = by_service 400000 4800000 };
  driven = by_service 410000 300000;
}

abbrev services : ℕ → DayServices
services day_number = record {
  replies = λ k. replies;
  eta = λ k n a b. record { distance_m = 1500; duration_thousandths = 12500 };
  search = λ types here day. ok (offer "Cerro" "a" ∷ offer "Cerro" "a" ∷ offer "Faro" "b" ∷ []);
  walk_minutes = λ n. 10;
}

abbrev place : String → String → Location → Place
place name kind here = record {
  name = name;
  location = here;
  kind = some kind;
  place_type = none;
  priority = none;
  rating = none;
  image = none;
  address = none;
  quality_flag = none;
}

abbrev hotel : String → Location → HomeBase
hotel name here = record { name = name; location = here; rating = none; address = none }

abbrev cluster : HomeBase → Place → Cluster
cluster base p = record {
  centroid = base.location;
  places = p ∷ [];
  home_base = some base;
  home_base_source = "recommended";
}

abbrev capital : Cluster
capital = cluster (hotel "Central" (at 33440000)) (place "Museo" "museum" (at 33437000))

abbrev north : Cluster
north = cluster (hotel "Norte" (at 29900000)) (place "Playa" "park" (at 29907000))

abbrev empty_cache : RouteCache
empty_cache = record { distance_cache = []; cache_hits = 0; cache_misses = 0 }

abbrev daily : TimeWindow
daily = record { start = 540; end = 1080 }

-- The check-in takes until 9:30, the museum opens at 10; then it is back to the hotel.
first_day_runs :
    let day = (route_day_enhanced planner daily (services 1) (capital ∷ []) none 1 empty_cache).0 in
    (length day.timeline ≡ 4) × (day.free_minutes ≡ 390)
unfolding program
first_day_runs = (refl, refl)

-- On the second day a journey of five hours goes north, and is an activity, too.
second_day_runs :
    let day =
      (route_day_enhanced planner daily
        (services 2)
        (north ∷ [])
        (some (at 33440000))
        2
        empty_cache).0 in
    (map (λ (t : Transfer). t.duration_minutes) day.transfers ≡ 300 ∷ [])
    × (day.travel_summary.total_distance_m ≡ 410000)
    × (day.free_minutes ≡ 0)
unfolding program
second_day_runs = (refl, refl, refl)

route_day_enhanced-IsInDay_example :
    DayWithin daily
      (route_day_enhanced planner daily
        (services 2)
        (north ∷ [])
        (some (at 33440000))
        2
        empty_cache).0
route_day_enhanced-IsInDay_example =
    route_day_enhanced-IsInDay planner daily (services 2) (north ∷ []) (some (at 33440000)) 2
      empty_cache

-- The way back from the museum.
abbrev way_back : TransferItem
way_back = record {
  from_place = "última actividad";
  to_place = "Central";
  distance_m = 1500;
  duration_minutes = 12;
  recommended_mode = "walk";
  is_intercity = false;
  overnight = false;
  is_return_to_hotel = true;
  origin = at 33437000;
  destination = at 33440000;
}

ends_at_hotel :
    last_item (
      day_items
        (route_cluster_with_time_windows planner.lower
          ((services 2).eta 0)
          daily
          "walk"
          capital
          540).1)
    ≡ some (transfer_dict way_back)
unfolding program
ends_at_hotel = refl

abbrev museum_day : Day Recommendation
museum_day =
    (route_day_enhanced planner daily (services 2) (capital ∷ []) (some (at 33440000)) 2
      empty_cache).0

route_day_enhanced-Overlap_example :
    IsBlock 540 1080 museum_day.free_blocks
    × HasActivities
        (map Scheduled.visit
          (route_cluster_with_time_windows planner.lower
            ((services 2).eta 0)
            daily
            "walk"
            capital
            540).0)
        museum_day.routed
route_day_enhanced-Overlap_example =
    route_day_enhanced-Overlap planner daily (services 2) capital (hotel "Central" (at 33440000))
      (at 33440000) 2 empty_cache way_back refl refl refl ends_at_hotel (omega arith)

abbrev wishes : Wishes
wishes = record {
  days_count = 3;
  daily_hours = record { start_hour = 9; end_hour = 18 };
  custom_schedules = λ day_number. none;
  packing_strategy = "balanced";
}

abbrev robust : ℕ → Location → Location → RobustReply
robust n a b = record { distance_m = 420000; duration_thousandths = 290000; fallback_used = false }

-- The last day is free; the way north is entered on the second day, and again as a transfer between
-- the days, since the two distances differ by ten kilometres.
trip_runs :
    let plan =
      plan_assignment planner
        (λ p q. false)
        services
        robust
        wishes
        empty_cache
        ((capital ∷ []) ∷ (north ∷ []) ∷ [] ∷ []) in
    let m = plan.optimization_metrics in
    (map (λ (t : Transfer). t.duration_minutes) m.intercity_transfers ≡ 290 ∷ 300 ∷ [])
    × (m.long_transfers_detected ≡ 2)
unfolding program
trip_runs = (refl, refl)

optimize_classic_method_lem_example :
    (plan : TripPlan) × (optimize_classic_method planner
        (λ p q. false)
        services
        robust
        wishes
        (capital ∷ north ∷ [])
        empty_cache
      ≡ ok plan)
    × (length plan.days ≡ 3)
    × IsAccounted plan.optimization_metrics
optimize_classic_method_lem_example =
    optimize_classic_method_lem planner (λ p q. false) services robust wishes (capital ∷ north ∷ [])
      empty_cache (omega arith) (omega arith)

abbrev planned : List (Day Recommendation)
planned =
    (plan_assignment planner (λ p q. false) services robust wishes empty_cache
      ((capital ∷ []) ∷ (north ∷ []) ∷ [] ∷ [])).days

inject-IsLinked_example :
    IsLinked distance robust planned
      (inject_intercity_transfers_between_days distance robust planned)
    × (inject_intercity_transfers_between_days distance robust
          (inject_intercity_transfers_between_days distance robust planned)
        ≡ inject_intercity_transfers_between_days distance robust planned)
inject-IsLinked_example = inject-IsLinked distance robust planned

-- The second offer has the place_id of the first.
offers_run :
    map
      (λ (s : EnrichedSuggestion). s.name)
      (enrich_suggestions_real
        (λ n. 10)
        (offer "Cerro" "a" ∷ offer "Mirador" "a" ∷ offer "Faro" "b" ∷ []))
    ≡ "Cerro" ∷ "Faro" ∷ []
unfolding program
offers_run = refl

generate_free_blocks_enhanced-FillsWith_example :
    FillsWith 900 1080
      (generate_free_blocks_enhanced (services 1).search (λ n. 10) 900 1080 (some (at 33440000)) 1)
generate_free_blocks_enhanced-FillsWith_example =
    generate_free_blocks_enhanced-FillsWith (services 1).search (λ n. 10) 900 1080 1
      (some (at 33440000))
