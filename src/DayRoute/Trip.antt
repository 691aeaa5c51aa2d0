-- ===== src/DayRoute/Trip.antt =====
-- The days of a trip in `_optimize_classic_method` of utils/hybrid_optimizer_v31.py, from the clusters
-- with their home bases to the metrics.
use Prim.Native.String.{String}
use goveling_ml.Prelude.{ℕ, suc, ◌-◌, ◌*◌, Bool, Option, none, some, List, [], ◌∷◌}
use goveling_ml.Prelude.Exceptions.{Result, ok, err, other_error, and_then}
use goveling_ml.Schedule.Data.{TimeWindow, Location, Place, HomeBase, Cluster}
use goveling_ml.RouteCache.{RouteCache}
use goveling_ml.Days.Assign.{Assignment, allocate_clusters_to_days}
use goveling_ml.Days.Pack.{pack_activities_by_strategy}
use goveling_ml.DayRoute.Data.{TravelSummary, BaseInfo, RawSuggestion, Routed, Day}
use goveling_ml.DayRoute.Free.{generate_free_blocks_enhanced}
use goveling_ml.DayRoute.Advice.{Recommendation}
use goveling_ml.DayRoute.State.{Planner, DayServices}
use goveling_ml.DayRoute.Route.{route_day_enhanced}
use goveling_ml.DayRoute.Between.{RobustReply, inject_intercity_transfers_between_days}
use goveling_ml.DayRoute.Metrics.{Metrics, calculate_enhanced_metrics}

-- The hours of a day: its own schedule, if `custom_schedules` has one for it, or those of the trip.
pub record Hours : Type 0 where
  pub start_hour : ℕ
  pub end_hour : ℕ

abbrev pub hours_of : Hours → Option Hours → Hours
hours_of daily none = daily
hours_of daily (some custom) = custom

abbrev pub window_of_hours : Hours → TimeWindow
window_of_hours h = record { start = h.start_hour * 60; end = h.end_hour * 60 }

pub record Tour : Type 0 where
  pub previous_end_location : Option Location
  pub last_active_base : Option BaseInfo
  pub cache : RouteCache

abbrev pub base_location : Option HomeBase → Option Location
base_location none = none
base_location (some base) = some base.location

-- The hotel of the first day that has activities and a base.
abbrev pub or_else : Option Location → Option Location → Option Location
or_else (some here) later = some here
or_else none later = later

abbrev pub base_of_first : List Cluster → Option Location
base_of_first [] = none
base_of_first (c ∷ cs) = base_location c.home_base

abbrev pub first_day_hotel : Assignment → Option Location
first_day_hotel [] = none
first_day_hotel (day ∷ days) = or_else (base_of_first day) (first_day_hotel days)

abbrev pub end_of : Option (Routed Recommendation) → Option Location
end_of none = none
end_of (some r) = r.end_location

abbrev pub base_or : Option BaseInfo → Option BaseInfo → Option BaseInfo
base_or (some base) before = some base
base_or none before = before

abbrev pub no_travel : TravelSummary
no_travel = record {
  total_travel_time_s = 0;
  total_distance_m = 0;
  walking_time_minutes = 0;
  transport_time_minutes = 0;
  intercity_transfers_count = 0;
  intercity_total_minutes = 0;
}

abbrev pub Search : Type 0
Search = List String → Location → ℕ → Result (List RawSuggestion)

-- `previous_end_location or last_active_base`: a base is a dictionary, of which `location[0]` raises.
abbrev pub effective_location : Search → Tour → Search × Option Location
effective_location search t = elim t.previous_end_location [
  | some here ↦ (search, some here)
  | none ↦ elim t.last_active_base [
    | none ↦ (search, none)
    | some base ↦ ((λ types here day. err other_error), some base.home_base.location)
  ]
]

module _ (p : Planner) (services : ℕ → DayServices) (hotel : Option Location) where
  unfoldable pub free_day : TimeWindow → ℕ → Tour → Day Recommendation
  free_day daily day_number t =
      let (search, here) = effective_location (services day_number).search t in
      record {
        timeline = [];
        transfers = [];
        free_blocks =
            generate_free_blocks_enhanced search (services day_number).walk_minutes daily.start
              daily.end here day_number;
        base = t.last_active_base;
        travel_summary = no_travel;
        free_minutes = daily.end - daily.start;
        routed = none;
      }

  abbrev pub after_day : Day Recommendation × RouteCache → Tour → Tour
  after_day (day, cache) t = record {
    previous_end_location = end_of day.routed;
    last_active_base = base_or day.base t.last_active_base;
    cache = cache;
  }

  abbrev pub plan_day : TimeWindow → ℕ → List Cluster → Tour → Day Recommendation × Tour
  plan_day daily day_number [] t = (free_day daily day_number t, t)
  plan_day daily day_number (c ∷ cs) t =
      let routed =
        route_day_enhanced p daily (services day_number) (c ∷ cs)
          (or_else t.previous_end_location hotel) day_number t.cache in
      (routed.0, after_day routed t)

  -- Days count from 1.
  unfoldable pub plan_days : (ℕ → TimeWindow) → ℕ → Assignment → Tour → List (Day Recommendation)
  unfolding free_day
  plan_days windows day_number [] t = []
  plan_days windows day_number (clusters ∷ days) t =
      let (day, later) = plan_day (windows day_number) day_number clusters t in
      day ∷ plan_days windows (suc day_number) days later

pub record TripPlan : Type 0 where
  pub days : List (Day Recommendation)
  pub optimization_metrics : Metrics

-- What is asked for: the number of days, the hours, the strategy and the schedules of single days.
pub record Wishes : Type 0 where
  pub days_count : ℕ
  pub daily_hours : Hours
  pub custom_schedules : ℕ → Option Hours
  pub packing_strategy : String

module _ (p : Planner) (same_place : Place → Place → Bool) (services : ℕ → DayServices)
    (robust : ℕ → Location → Location → RobustReply) where
  abbrev pub windows_of : Wishes → ℕ → TimeWindow
  windows_of w day_number = window_of_hours (hours_of w.daily_hours (w.custom_schedules day_number))

  abbrev pub finish_trip : List (Day Recommendation) → TripPlan
  finish_trip planned =
      let days = inject_intercity_transfers_between_days p.distance robust planned in
      record { days = days; optimization_metrics = calculate_enhanced_metrics days }

  abbrev pub start_tour : RouteCache → Tour
  start_tour cache = record { previous_end_location = none; last_active_base = none; cache = cache }

  unfoldable pub plan_assignment : Wishes → RouteCache → Assignment → TripPlan
  unfolding plan_days
  plan_assignment w cache days =
      finish_trip
        (plan_days p services (first_day_hotel days) (windows_of w) 1 days (start_tour cache))

  unfoldable pub optimize_classic_method : Wishes → List Cluster → RouteCache → Result TripPlan
  unfolding plan_assignment
  optimize_classic_method w clusters cache =
      and_then (allocate_clusters_to_days p.distance same_place clusters w.days_count) (λ days.
        and_then (pack_activities_by_strategy days w.packing_strategy)
          (λ packed. ok (plan_assignment w cache packed)))
