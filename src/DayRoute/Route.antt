-- ===== src/DayRoute/Route.antt =====
-- `route_day_enhanced` of utils/hybrid_optimizer_v31.py: the clusters of a day, one after the other,
-- with the transfers between them.
use Prim.Native.String.{String}
use text.Mathlib.Text.{◌==◌ as str_eq}
use goveling_ml.Prelude.{
  ℕ, ◌+◌, ◌-◌, ◌*◌, Bool, true, false, ◌||◌, Option, none, some, List, [], ◌∷◌, map, ltb,
  if◌then◌else◌, sum,
}
use goveling_ml.Schedule.Data.{TimeWindow, Location, HomeBase, Cluster, TransferItem}
use goveling_ml.Schedule.Route.{route_cluster_with_time_windows}
use goveling_ml.RouteCache.{RouteCache}
use goveling_ml.DayRoute.Data.{scheduled_minutes, TravelSummary, BaseInfo, Day}
use goveling_ml.DayRoute.Free.{generate_free_blocks_enhanced}
use goveling_ml.DayRoute.Transfers.{build_enhanced_transfer}
use goveling_ml.DayRoute.Advice.{Recommendation, generate_actionable_recommendations}
use goveling_ml.DayRoute.State.{
  DayServices, Planner, DayState, start_location, begin_day, take_transfer, add_cluster,
}

module _ (p : Planner) (daily : TimeWindow) (services : DayServices) where
  abbrev pub if_positive : TransferItem → DayState → DayState
  if_positive x s = if ltb 0 x.duration_minutes then take_transfer x s else s

  -- The transfer that is built for a cluster, or false where it does not fit and the loop breaks: it
  -- is marked as overnight then.
  abbrev pub try_transfer : Location → TransferItem × RouteCache → DayState → Bool × DayState
  try_transfer hotel (x, cache) s =
      let asked = record s { cache = cache } in
      if ltb daily.end (s.current_time + x.duration_minutes)
      then (false, record asked { left_over = some (record x { overnight = true }) })
      else (true, record (if_positive x asked) { current_location = some hotel })

  -- To a hotel at most 100 metres away no transfer is made.
  abbrev pub go_to : ℕ → Cluster → Option Location → Option HomeBase → DayState → Bool × DayState
  go_to k c none base s = (true, s)
  go_to k c (some here) none s = (true, s)
  go_to k c (some here) (some base) s =
      if ltb 100 (p.distance here base.location)
      then try_transfer base.location
          (build_enhanced_transfer p.round_3 p.naming p.transport_mode (services.replies k) here
            base.location c s.cache)
          s
      else (true, record s { current_location = some base.location })

  unfoldable pub arrive : ℕ → Cluster → DayState → Bool × DayState
  arrive k c s = go_to k c s.current_location c.home_base s

  unfoldable pub stay : ℕ → Cluster → DayState → DayState
  unfolding add_cluster
  stay k c s =
      add_cluster
        (route_cluster_with_time_windows p.lower (services.eta k) daily p.transport_mode c
          s.current_time)
        s

  unfoldable pub route_clusters : ℕ → List Cluster → DayState → DayState
  route_clusters k [] s = s
  route_clusters k (c ∷ cs) s =
      let (fits, t) = arrive k c s in
      elim fits [ true ↦ route_clusters (k + 1) cs (stay k c t) | false ↦ t ]

  abbrev pub near_base : Option HomeBase → Location → Location
  near_base none here = here
  near_base (some base) here =
      if ltb 100000 (p.distance here base.location) then base.location else here

  -- Suggestions are sought around the base if the day has ended over 100 km away from it.
  abbrev pub suggestions_origin : Option Location → List Cluster → Option Location
  suggestions_origin none clusters = none
  suggestions_origin (some here) [] = some here
  suggestions_origin (some here) (c ∷ cs) = some (near_base c.home_base here)

  abbrev pub recommended : String → Bool
  recommended source = str_eq source "recommended" || str_eq source "auto_recommended_by_system"

  abbrev pub base_info : String → Option HomeBase → Option BaseInfo
  base_info source none = none
  base_info source (some base) =
      if p.no_original_accommodations
      then some (record {
        home_base = base;
        auto_recommended = true;
        recommendation_source = "auto_recommended_by_system";
      })
      else some (record {
        home_base = base;
        auto_recommended = recommended source;
        recommendation_source = source;
      })

  abbrev pub base_of : List Cluster → Option BaseInfo
  base_of [] = none
  base_of (c ∷ cs) = base_info c.home_base_source c.home_base

  abbrev pub summary : DayState → TravelSummary
  summary s = record {
    total_travel_time_s = (s.walking_time + s.transport_time) * 60;
    total_distance_m = s.total_distance;
    walking_time_minutes = s.walking_time;
    transport_time_minutes = s.transport_time;
    intercity_transfers_count = s.intercity_transfers_count;
    intercity_total_minutes = s.intercity_total_minutes;
  }

  abbrev pub finish_day : ℕ → List Cluster → DayState → Day Recommendation
  finish_day day_number clusters s =
      let free_blocks =
        generate_free_blocks_enhanced services.search services.walk_minutes s.current_time daily.end
          (suggestions_origin s.current_location clusters) day_number in
      record {
        timeline = s.timeline;
        transfers = s.transfers;
        free_blocks = free_blocks;
        base = base_of clusters;
        travel_summary = summary s;
        free_minutes =
            daily.end
            - daily.start
            - sum (map scheduled_minutes s.activities_scheduled)
            - (s.walking_time + s.transport_time);
        routed = some (record {
          pure_activities = s.activities_scheduled;
          actionable_recommendations =
              generate_actionable_recommendations p.lower p.mentions_restaurant
                s.activities_scheduled s.transfers free_blocks daily;
          end_location = s.current_location;
        });
      }

  unfoldable pub route_day_enhanced :
      List Cluster → Option Location → ℕ → RouteCache → Day Recommendation × RouteCache
  unfolding route_clusters begin_day
  route_day_enhanced clusters previous day_number cache =
      let here = start_location previous clusters in
      let s = route_clusters 0 clusters (begin_day day_number daily.start clusters here cache) in
      (finish_day day_number clusters s, s.cache)
