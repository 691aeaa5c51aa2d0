-- ===== src/DayRoute/Totals.antt =====
-- The metrics of a trip and the transfers of its days (utils/hybrid_optimizer_v31.py,
-- `_optimize_classic_method`).
use goveling_ml.Prelude.{
  ℕ, suc, ◌<◌, ◌≡◌, refl, ap, ◌∙◌, Bool, Option, none, some, List, [], ◌∷◌, ltb, arith, length,
  length-append, both, All,
}
use goveling_ml.Prelude.Exceptions.{ok}
use goveling_ml.Prelude.Sums.{sum-map-append}
use goveling_ml.Schedule.Data.{TimeWindow, Location, Place, HomeBase, Cluster}
use goveling_ml.RouteCache.{RouteCache}
use goveling_ml.Days.Assign.{Assignment}
use goveling_ml.Days.Allocation.{HavePlaces, allocate_clusters_to_days_lem}
use goveling_ml.Days.Packing.{length-pack_activities}
use goveling_ml.DayRoute.Data.{Transfer, BaseInfo, Day}
use goveling_ml.DayRoute.State.{DayServices, Planner}
use goveling_ml.DayRoute.Between.{
  RobustReply, Passage, transfer_exists, insert_transfer, connect_bases, connect, inject_after,
  inject_intercity_transfers_between_days,
}
use goveling_ml.DayRoute.Metrics.{Metrics, all_transfers, calculate_enhanced_metrics}
use goveling_ml.DayRoute.Trip.{
  Tour, Wishes, TripPlan, free_day, plan_day, plan_days, plan_assignment, optimize_classic_method,
  first_day_hotel, windows_of, start_tour,
}
use goveling_ml.DayRoute.Tally.{Tallies, IsSummed, route_day_enhanced-IsSummed}

module _ {A : Type 0} (distance : Location → Location → ℕ)
    (robust : ℕ → Location → Location → RobustReply) where
  insert_transfer-IsSummed :
      (from to : HomeBase) (way : Passage) (d : Day A)
      → IsSummed d
      → IsSummed (insert_transfer distance robust from to way d)
  unfolding insert_transfer
  insert_transfer-IsSummed from to way d (w, tr, c, m, x) =
      both IsSummed (transfer_exists way.distance_m d.transfers) (w, tr, c, m, x)
        (w, omega arith, omega arith, omega arith, omega arith)

  connect-IsSummed :
      (n : ℕ) (day next : Day A) → IsSummed next → IsSummed (connect distance robust n day next)
  unfolding connect
  connect-IsSummed n day next h = bases day.base next.base
    where
      bases : (a b : Option BaseInfo) → IsSummed (connect_bases distance robust n a b next)
      bases none b = h
      bases (some a) none = h
      bases (some a) (some b) =
          both IsSummed (ltb 30000 (distance a.home_base.location b.home_base.location))
            (insert_transfer-IsSummed a.home_base b.home_base _ next h) h

  inject_after-IsSummed :
      (n : ℕ) (day : Day A) (days : List (Day A))
      → All IsSummed days
      → All IsSummed (inject_after distance robust n day days)
  inject_after-IsSummed n day [] h = tt
  inject_after-IsSummed n day (next ∷ days) h =
      (connect-IsSummed n day next h.0, inject_after-IsSummed (suc n) next days h.1)

  length-inject_after :
      (n : ℕ) (day : Day A) (days : List (Day A))
      → length (inject_after distance robust n day days) ≡ length days
  length-inject_after n day [] = refl
  length-inject_after n day (next ∷ days) = ap suc (length-inject_after (suc n) next days)

  inject-IsSummed :
      (days : List (Day A))
      → All IsSummed days
      → All IsSummed (inject_intercity_transfers_between_days distance robust days)
        × (length (inject_intercity_transfers_between_days distance robust days) ≡ length days)
  unfolding inject_intercity_transfers_between_days
  inject-IsSummed [] h = (tt, refl)
  inject-IsSummed (day ∷ days) h =
      ((h.0, inject_after-IsSummed 0 day days h.1), ap suc (length-inject_after 0 day days))

-- The totals of the metrics are the totals of the transfers that they list.
abbrev pub IsAccounted : Metrics → Type 0
IsAccounted m =
    Tallies m.intercity_transfers m.walking_time_minutes m.transport_time_minutes
      m.long_transfers_detected m.total_intercity_minutes m.total_distance_m
    × (m.total_intercity_distance_m ≡ m.total_distance_m)
    × (m.total_travel_time_minutes ≡ m.total_intercity_minutes)

module _ {A : Type 0} where
  metrics-IsAccounted :
      (days : List (Day A)) → All IsSummed days → IsAccounted (calculate_enhanced_metrics days)
  unfolding calculate_enhanced_metrics
  metrics-IsAccounted [] h = ((refl, refl, refl, refl, refl), refl, refl)
  metrics-IsAccounted (d ∷ ds) ((w, tr, c, m, x), h) =
      let ((w', tr', c', m', x'), y, z) = metrics-IsAccounted ds h in
      let durations =
        sum-map-append (λ (t : Transfer). t.duration_minutes) d.transfers (all_transfers ds) in
      let distances =
        sum-map-append (λ (t : Transfer). t.distance_m) d.transfers (all_transfers ds) in
      let longer = length-append {0} d.transfers (all_transfers ds) in
      ((omega arith, omega arith, omega arith, omega arith, omega arith), omega arith, omega arith)

module _ (p : Planner) (services : ℕ → DayServices) (hotel : Option Location) where
  plan_day-IsSummed :
      (daily : TimeWindow) (day_number : ℕ) (clusters : List Cluster) (t : Tour)
      → IsSummed (plan_day p services hotel daily day_number clusters t).0
  unfolding free_day
  plan_day-IsSummed daily day_number [] t = (refl, refl, refl, refl, refl)
  plan_day-IsSummed daily day_number (c ∷ cs) t =
      route_day_enhanced-IsSummed p daily (services day_number) (c ∷ cs) _ day_number t.cache

  plan_days-IsSummed :
      (windows : ℕ → TimeWindow) (day_number : ℕ) (days : Assignment) (t : Tour)
      → All IsSummed (plan_days p services hotel windows day_number days t)
        × (length (plan_days p services hotel windows day_number days t) ≡ length days)
  unfolding plan_days
  plan_days-IsSummed windows day_number [] t = (tt, refl)
  plan_days-IsSummed windows day_number (clusters ∷ days) t =
      let rest = plan_days-IsSummed windows (suc day_number) days _ in
      ((plan_day-IsSummed (windows day_number) day_number clusters t, rest.0), ap suc rest.1)

module _ (p : Planner) (same_place : Place → Place → Bool) (services : ℕ → DayServices)
    (robust : ℕ → Location → Location → RobustReply) where
  plan_assignment-IsAccounted :
      (w : Wishes) (cache : RouteCache) (days : Assignment)
      → let plan = plan_assignment p same_place services robust w cache days in
        (length plan.days ≡ length days) × IsAccounted plan.optimization_metrics
  unfolding plan_assignment
  plan_assignment-IsAccounted w cache days =
      let planned =
        plan_days-IsSummed p services (first_day_hotel days)
          (windows_of p same_place services robust w) 1 days
          (start_tour p same_place services robust cache) in
      let injected = inject-IsSummed p.distance robust _ planned.0 in
      (injected.1 ∙ planned.1, metrics-IsAccounted _ injected.0)

  -- For a trip of at least one day and clusters that all have places, the planning always ends with
  -- a plan of as many days, under every strategy and whatever the services answer. In its metrics
  -- no minute is walked, all travel is between cities, and the transfers that they list account for
  -- the number of long transfers, the minutes and the distance of the whole trip.
  pub optimize_classic_method_lem :
      (w : Wishes) (clusters : List Cluster) (cache : RouteCache)
      → 0 < w.days_count
      → HavePlaces clusters
      → (plan : TripPlan) × (optimize_classic_method p same_place services robust w clusters cache
          ≡ ok plan)
        × (length plan.days ≡ w.days_count)
        × IsAccounted plan.optimization_metrics
  unfolding optimize_classic_method
  optimize_classic_method_lem w clusters cache h k =
      let (days, e, m, kept) =
        allocate_clusters_to_days_lem p.distance same_place clusters w.days_count h k in
      let (packed, f, n) = length-pack_activities days w.packing_strategy in
      let (l, a) = plan_assignment-IsAccounted w cache packed in
      (plan_assignment p same_place services robust w cache packed, rw (e, f) refl, l ∙ n ∙ m, a)
