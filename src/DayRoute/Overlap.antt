-- ===== src/DayRoute/Overlap.antt =====
-- The time at hand after the way back to the hotel (utils/hybrid_optimizer_v31.py,
-- `route_day_enhanced`).
use goveling_ml.Prelude.{
  ℕ, Bool, ◌-◌, ◌<◌, ◌≡◌, refl, ap, ◌∙◌, true, false, Option, none, some, List, [], ◌∷◌, ◌++◌, map,
  ltb, arith, ◌==◌,
}
use goveling_ml.Schedule.Data.{TimeWindow, Location, HomeBase, Cluster, TransferItem}
use goveling_ml.Schedule.Route.{route_cluster_with_time_windows}
use goveling_ml.RouteCache.{RouteCache}
use goveling_ml.DayRoute.Data.{Scheduled, visit, transfer_dict, FreeBlock, Routed}
use goveling_ml.DayRoute.Free.{generate_free_blocks_enhanced}
use goveling_ml.DayRoute.Advice.{Recommendation}
use goveling_ml.DayRoute.State.{
  DayServices, Planner, DayState, begin, begin_day, last_item, day_items,
}
use goveling_ml.DayRoute.Route.{go_to, arrive, stay, route_clusters, route_day_enhanced}
use goveling_ml.DayRoute.Tally.{count_legs-eq_self}

-- The free blocks are one, from a time to the end of the day.
abbrev pub IsBlock : ℕ → ℕ → List FreeBlock → Type 0
IsBlock start end [] = ⊥
IsBlock start end (b ∷ bs) =
    (b.start_time ≡ start) × (b.end_time ≡ end) × (b.duration_minutes ≡ end - start) × (bs ≡ [])

abbrev pub HasActivities : List Scheduled → Option (Routed Recommendation) → Type 0
HasActivities activities none = ⊥
HasActivities activities (some r) = r.pure_activities ≡ activities

module _ (p : Planner) (daily : TimeWindow) (services : DayServices) where
  -- A cluster whose timeline ends with a transfer leaves the clock where it found it.
  stay-current_time :
      (k : ℕ) (c : Cluster) (s : DayState) (x : TransferItem)
      → last_item (
          day_items
            (route_cluster_with_time_windows p.lower
              (services.eta k)
              daily
              p.transport_mode
              c
              s.current_time).1)
        ≡ some (transfer_dict x)
      → (stay p daily services k c s).current_time ≡ s.current_time
  unfolding stay
  stay-current_time k c s x h = rw (count_legs-eq_self, h) refl

  stay-activities :
      (k : ℕ) (c : Cluster) (s : DayState) (x : TransferItem)
      → let (activities, timeline) =
          route_cluster_with_time_windows p.lower
            (services.eta k)
            daily
            p.transport_mode
            c
            s.current_time in
        last_item (day_items timeline) ≡ some (transfer_dict x)
        → (stay p daily services k c s).activities_scheduled
          ≡ s.activities_scheduled ++ map visit activities
  unfolding stay
  stay-activities k c s x h = rw (count_legs-eq_self, h) refl

  arrive_near :
      (c : Cluster) (base : HomeBase) (here : Location) (time : ℕ) (cache : RouteCache)
      → c.home_base ≡ some base
      → ltb 100 (p.distance here base.location) ≡ false
      → arrive p daily services 0 c (begin time (some here) cache)
        ≡ (true, begin time (some base.location) cache)
  unfolding arrive
  arrive_near c base here time cache b near =
      ap (λ o. go_to p daily services 0 c (some here) o (begin time (some here) cache)) b
      ∙ rw near refl

  continue : Cluster → Bool × DayState → DayState
  continue c (fits, t) = elim fits [ true ↦ stay p daily services 0 c t | false ↦ t ]

  -- Where a day begins at the hotel of its only cluster, only the activities are routed.
  only_cluster :
      (c : Cluster) (base : HomeBase) (here : Location) (day_number : ℕ) (cache : RouteCache)
      → c.home_base ≡ some base
      → day_number == 1 ≡ false
      → ltb 100 (p.distance here base.location) ≡ false
      → route_clusters p daily services 0
          (c ∷ [])
          (begin_day day_number daily.start (c ∷ []) (some here) cache)
        ≡ stay p daily services 0 c (begin daily.start (some base.location) cache)
  unfolding route_clusters begin_day continue
  only_cluster c base here day_number cache b later near =
      let begun : begin_day day_number daily.start (c ∷ []) (some here) cache
          ≡ begin daily.start (some here) cache =
        rw later refl in
      ap (route_clusters p daily services 0 (c ∷ [])) begun
      ∙ ap (continue c) (arrive_near c base here daily.start cache b near)

  IsBlock-from :
      (time end day_number : ℕ) (origin : Option Location)
      → time < end
      → IsBlock time end (
          generate_free_blocks_enhanced services.search services.walk_minutes time end origin
            day_number)
  unfolding generate_free_blocks_enhanced
  IsBlock-from time end day_number origin h =
      let open_end : ltb time end ≡ true = ground arith in rw open_end (refl, refl, refl, refl)

  -- A later day with one cluster, at whose hotel it begins: if its timeline ends with a transfer, as
  -- it does with the way back to the hotel, then the free time that the day reports is the whole day,
  -- though its activities have been scheduled in it.
  pub route_day_enhanced-Overlap :
      (c : Cluster) (base : HomeBase) (here : Location) (day_number : ℕ) (cache : RouteCache)
      (x : TransferItem)
      → c.home_base ≡ some base
      → day_number == 1 ≡ false
      → ltb 100 (p.distance here base.location) ≡ false
      → let (activities, timeline) =
          route_cluster_with_time_windows p.lower
            (services.eta 0)
            daily
            p.transport_mode
            c
            daily.start in
        last_item (day_items timeline) ≡ some (transfer_dict x)
        → daily.start < daily.end
        → let day = (route_day_enhanced p daily services (c ∷ []) (some here) day_number cache).0 in
          IsBlock daily.start daily.end day.free_blocks
          × HasActivities (map visit activities) day.routed
  unfolding route_day_enhanced
  route_day_enhanced-Overlap c base here day_number cache x b later near ends some_time =
      let started = begin daily.start (some base.location) cache in
      rw
        (
          only_cluster c base here day_number cache b later near,
          stay-current_time 0 c started x ends,
          stay-activities 0 c started x ends,
        )
        (IsBlock-from daily.start daily.end day_number _ some_time, refl)
