-- ===== src/DayRoute/Fits.antt =====
-- The activities of a day and its list of transfers lie in its window (utils/hybrid_optimizer_v31.py, `route_day_enhanced`).
use goveling_ml.Prelude.{
  ℕ, ◌+◌, ◌≤◌, ◌<◌, ◌≡◌, refl, inl, inr, Bool, false, Option, none, some, List, [], ◌∷◌, ◌++◌, map,
  ltb, arith, ◌==◌, Bool-cases, in_either, both, both_cases, All, All-mono, All-append, All-map,
}
use goveling_ml.Schedule.Data.{
  TimeWindow, Location, HomeBase, Cluster, TransferItem, ActivityItem, TimelineItem, transfer,
  activity,
}
use goveling_ml.DayRoute.Visits.{
  Within, WithinItem, Within-mono, WithinItem-mono, route_cluster-Within,
}
use goveling_ml.RouteCache.{RouteCache}
use goveling_ml.DayRoute.Data.{
  Scheduled, check_in, journey, visit, DayItem, scheduled, transfer_dict, Transfer, Routed, Day,
}
use goveling_ml.DayRoute.Transfers.{Replies, build_enhanced_transfer}
use goveling_ml.DayRoute.Advice.{Recommendation}
use goveling_ml.DayRoute.State.{
  DayServices, Planner, DayState, arrival, begin, begin_day, check_in_at, intercity_transfer,
  take_transfer, move_on, last_item, day_items, add_cluster, start_location,
}
use goveling_ml.DayRoute.Route.{
  try_transfer, go_to, arrive, stay, route_clusters, route_day_enhanced,
}
use goveling_ml.DayRoute.Tally.{count_legs-eq_self}

-- The check-in is at the start of the day; a journey lies in the window, a visit also lasts its time.
abbrev pub IsInDay : TimeWindow → Scheduled → Type 0
IsInDay daily (check_in c) = (c.start_time ≡ daily.start) × (c.end_time ≡ daily.start + 30)
IsInDay daily (journey j) = (daily.start ≤ j.start_time) × (j.end_time ≤ daily.end)
IsInDay daily (visit a) = Within daily daily.start a

-- A transfer takes some time, within the window, and is not marked as overnight.
abbrev pub IsDaytime : TimeWindow → Transfer → Type 0
IsDaytime daily t =
    (daily.start ≤ t.time)
    × (0 < t.duration_minutes)
    × (t.time + t.duration_minutes ≤ daily.end)
    × (t.overnight ≡ false)

abbrev pub RoutedWithin : TimeWindow → Option (Routed Recommendation) → Type 0
RoutedWithin daily none = Unit
RoutedWithin daily (some r) = All (IsInDay daily) r.pure_activities

abbrev pub DayWithin : TimeWindow → Day Recommendation → Type 0
DayWithin daily d = RoutedWithin daily d.routed × All (IsDaytime daily) d.transfers

module _ (daily : TimeWindow) where
  record IsWithin (s : DayState) : Type 0 where
    time : daily.start ≤ s.current_time
    activities : All (IsInDay daily) s.activities_scheduled
    transfers : All (IsDaytime daily) s.transfers

  arrival_times :
      (base : Option HomeBase) (here : Location) (time : ℕ)
      → ((arrival base here time).start_time ≡ time)
        × ((arrival base here time).end_time ≡ time + 30)
  arrival_times none here time = (refl, refl)
  arrival_times (some base) here time = (refl, refl)

  begin_day-IsWithin :
      (day_number : ℕ) (cs : List Cluster) (here : Option Location) (cache : RouteCache)
      → IsWithin (begin_day day_number daily.start cs here cache)
  unfolding begin_day
  begin_day-IsWithin day_number cs here cache =
      both IsWithin (day_number == 1) (checked_in cs here) (omega arith)
    where
      checked_in :
          (cs : List Cluster) (here : Option Location)
          → IsWithin (check_in_at cs here (begin daily.start here cache))
      checked_in [] h = omega arith
      checked_in (c ∷ cs) none = omega arith
      checked_in (c ∷ cs) (some h) = record {
        time = omega arith;
        activities = (arrival_times c.home_base h daily.start, tt);
        transfers = tt;
      }

  -- The invariant reads only the time, the activities and the transfers.
  same :
      {s : DayState} {timeline : List DayItem} {here : Option Location} {cache : RouteCache}
      {x : Option TransferItem}
      → IsWithin s
      → IsWithin
          (record s { timeline = timeline; current_location = here; cache = cache; left_over = x })
  same h = record { time = h.time; activities = h.activities; transfers = h.transfers }

  -- A transfer that fits, with what is done on the way.
  take_transfer-IsWithin :
      (x : TransferItem) (s : DayState)
      → IsWithin s
      → 0 < x.duration_minutes
      → s.current_time + x.duration_minutes ≤ daily.end
      → x.overnight ≡ false
      → IsWithin (take_transfer x s)
  unfolding take_transfer
  take_transfer-IsWithin x s h pos fits unmarked =
      let sent =
        All-append (IsDaytime daily) s.transfers (intercity_transfer x s.current_time ∷ [])
          h.transfers ((h.time, pos, fits, unmarked), tt) in
      elim (Bool-cases (ltb x.duration_minutes 180)) [
        | inl short ↦
            rw short
              (record { time = omega (arith, h.time); activities = h.activities; transfers = sent })
        | inr long ↦ rw long (record {
          time = omega (arith, h.time);
          activities =
              All-append (IsInDay daily) s.activities_scheduled (_ ∷ []) h.activities
                ((h.time, fits), tt);
          transfers = sent;
        })
      ]

  -- The time of the last item of a cluster is in the day.
  last_time :
      (items : List TimelineItem) (s : DayState)
      → All (WithinItem daily daily.start) items
      → daily.start ≤ s.current_time
      → daily.start ≤ (move_on (last_item (day_items items)) s).current_time
  last_time [] s h k = k
  last_time (transfer x ∷ []) s h k = k
  last_time (activity a ∷ []) s h k = omega (arith, h.0.0, h.0.1)
  last_time (transfer x ∷ transfer y ∷ xs) s h k = last_time (transfer y ∷ xs) s h.1 k
  last_time (transfer x ∷ activity b ∷ xs) s h k = last_time (activity b ∷ xs) s h.1 k
  last_time (activity a ∷ transfer y ∷ xs) s h k = last_time (transfer y ∷ xs) s h.1 k
  last_time (activity a ∷ activity b ∷ xs) s h k = last_time (activity b ∷ xs) s h.1 k

  move_on-keeps :
      (o : Option DayItem) (s : DayState)
      → ((move_on o s).activities_scheduled ≡ s.activities_scheduled)
        × ((move_on o s).transfers ≡ s.transfers)
  move_on-keeps none s = (refl, refl)
  move_on-keeps (some (transfer_dict x)) s = (refl, refl)
  move_on-keeps (some (scheduled (visit a))) s = (refl, refl)
  move_on-keeps (some (scheduled (check_in c))) s = (refl, refl)
  move_on-keeps (some (scheduled (journey j))) s = (refl, refl)

  add_cluster-IsWithin :
      (activities : List ActivityItem) (items : List TimelineItem) (s : DayState)
      → All (Within daily daily.start) activities
      → All (WithinItem daily daily.start) items
      → IsWithin s
      → IsWithin (add_cluster (activities, items) s)
  unfolding add_cluster
  add_cluster-IsWithin activities items s a b h = rw count_legs-eq_self (
      let kept = move_on-keeps (last_item (day_items items)) (record s {
        activities_scheduled = s.activities_scheduled ++ map visit activities;
        timeline = s.timeline ++ day_items items;
      }) in
      record {
        time = last_time items _ b h.time;
        activities = rw kept.0 (
            All-append (IsInDay daily) s.activities_scheduled (map visit activities) h.activities
              (All-map (IsInDay daily) visit activities a));
        transfers = rw kept.1 h.transfers;
      })

-- A transfer that has just been built is not marked.
build_enhanced_transfer-overnight :
    (p : Planner) (replies : Replies) (here there : Location) (c : Cluster) (cache : RouteCache)
    → (build_enhanced_transfer p.round_3 p.naming p.transport_mode replies here there c
        cache).0.overnight
      ≡ false
unfolding build_enhanced_transfer
build_enhanced_transfer-overnight p replies here there c cache = refl

module _ (p : Planner) (daily : TimeWindow) (services : DayServices) where
  stay-IsWithin :
      (k : ℕ) (c : Cluster) (s : DayState)
      → IsWithin daily s
      → IsWithin daily (stay p daily services k c s)
  unfolding stay
  stay-IsWithin k c s h =
      let routed =
        route_cluster-Within p.lower (services.eta k) daily p.transport_mode c s.current_time in
      add_cluster-IsWithin daily _ _ s
        (All-mono (Within-mono daily daily.start s.current_time h.time) _ routed.0)
        (All-mono (WithinItem-mono daily daily.start s.current_time h.time) _ routed.1) h

  arrive-IsWithin :
      (k : ℕ) (c : Cluster) (s : DayState)
      → IsWithin daily s
      → IsWithin daily (arrive p daily services k c s).1
  unfolding arrive
  arrive-IsWithin k c s h = gone s.current_location c.home_base
    where
      tried :
          (hotel : Location) (x : TransferItem × RouteCache)
          → x.0.overnight ≡ false
          → IsWithin daily (try_transfer p daily services hotel x s).1
      tried hotel (x, cache) unmarked =
          in_either (λ (r : Bool × DayState). IsWithin daily r.1)
            (ltb daily.end (s.current_time + x.duration_minutes)) (λ late. same daily h)
            (λ fits. same daily (
              in_either (IsWithin daily) (ltb 0 x.duration_minutes)
                (λ some_time.
                  take_transfer-IsWithin daily x _ (same daily h) (ground arith) (ground arith)
                    unmarked)
                (λ no_time. same daily h)))

      gone :
          (here : Option Location) (base : Option HomeBase)
          → IsWithin daily (go_to p daily services k c here base s).1
      gone none base = h
      gone (some here) none = h
      gone (some here) (some base) =
          both (λ (r : Bool × DayState). IsWithin daily r.1) (ltb 100 _)
            (tried base.location _ (
              build_enhanced_transfer-overnight p (services.replies k) here base.location c
                s.cache))
            (same daily h)

  route_clusters-IsWithin :
      (k : ℕ) (cs : List Cluster) (s : DayState)
      → IsWithin daily s
      → IsWithin daily (route_clusters p daily services k cs s)
  unfolding route_clusters
  route_clusters-IsWithin k [] s h = h
  route_clusters-IsWithin k (c ∷ cs) s h =
      let arrived = arrive-IsWithin k c s h in
      both_cases (IsWithin daily) (arrive p daily services k c s).0
        (route_clusters-IsWithin (k + 1) cs _ (stay-IsWithin k c _ arrived)) arrived

-- Every activity that a day schedules lies in its window: the check-in is at its start, a journey and
-- every visit begin no earlier and end by its end, a visit lasts its duration. Every entry of the
-- day's list of transfers, which are those between clusters, takes some time within the window and
-- is not marked as overnight. Nothing is stated of the transfers inside a cluster, which stand in
-- the timeline only.
pub route_day_enhanced-IsInDay :
    (p : Planner) (daily : TimeWindow) (services : DayServices) (clusters : List Cluster)
    (previous : Option Location) (day_number : ℕ) (cache : RouteCache)
    → DayWithin daily (route_day_enhanced p daily services clusters previous day_number cache).0
unfolding route_day_enhanced
route_day_enhanced-IsInDay p daily services clusters previous day_number cache =
    let routed =
      route_clusters-IsWithin p daily services 0 clusters _
        (begin_day-IsWithin daily day_number clusters (start_location previous clusters) cache) in
    (routed.activities, routed.transfers)
