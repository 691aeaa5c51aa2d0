-- ===== src/DayRoute/Tally.antt =====
-- What the travel summary of a day counts (utils/hybrid_optimizer_v31.py, `route_day_enhanced` and
-- `_inject_intercity_transfers_between_days`).
use goveling_ml.Prelude.{
  ℕ, ◌+◌, ◌≡◌, Bool, refl, inl, inr, Option, none, some, List, [], ◌∷◌, ◌++◌, map, ltb, arith, ◌==◌,
  length, length-append, sum, Bool-cases, in_either, both, both_cases,
}
use goveling_ml.Prelude.Sums.{sum-map-append}
use goveling_ml.Schedule.Data.{TimeWindow, Location, HomeBase, Cluster, TransferItem}
use goveling_ml.RouteCache.{RouteCache}
use goveling_ml.DayRoute.Data.{
  DayItem, scheduled, transfer_dict, check_in, journey, visit, Transfer, Day,
}
use goveling_ml.DayRoute.State.{
  DayServices, Planner, DayState, begin, begin_day, check_in_at, take_transfer, move_on, count_legs,
  start_location,
}
use goveling_ml.DayRoute.Route.{
  try_transfer, go_to, arrive, stay, route_clusters, route_day_enhanced,
}

-- The counts that belong to a list of transfers: nothing is walked, and everything travelled is one
-- of these transfers.
abbrev pub Tallies : List Transfer → ℕ → ℕ → ℕ → ℕ → ℕ → Type 0
Tallies ts walking transport count minutes distance =
    (walking ≡ 0)
    × (transport ≡ minutes)
    × (count ≡ length ts)
    × (minutes ≡ sum (map (λ t. t.duration_minutes) ts))
    × (distance ≡ sum (map (λ t. t.distance_m) ts))

abbrev IsTallied : DayState → Type 0
IsTallied s =
    Tallies s.transfers s.walking_time s.transport_time s.intercity_transfers_count
      s.intercity_total_minutes s.total_distance

begin_day-IsTallied :
    (day_number time : ℕ) (clusters : List Cluster) (here : Option Location) (cache : RouteCache)
    → IsTallied (begin_day day_number time clusters here cache)
unfolding begin_day
begin_day-IsTallied day_number time clusters here cache =
    both IsTallied (day_number == 1) (checked_in clusters here) (refl, refl, refl, refl, refl)
  where
    checked_in :
        (cs : List Cluster) (here : Option Location)
        → IsTallied (check_in_at cs here (begin time here cache))
    checked_in [] h = (refl, refl, refl, refl, refl)
    checked_in (c ∷ cs) none = (refl, refl, refl, refl, refl)
    checked_in (c ∷ cs) (some h) = (refl, refl, refl, refl, refl)

Tallies-append :
    (ts : List Transfer) (t : Transfer) {walking transport count minutes distance : ℕ}
    → Tallies ts walking transport count minutes distance
    → Tallies
        (ts ++ t ∷ [])
        walking
        (transport + t.duration_minutes)
        (count + 1)
        (minutes + t.duration_minutes)
        (distance + t.distance_m)
Tallies-append ts t (w, tr, c, m, d) =
    let durations = sum-map-append (λ (t : Transfer). t.duration_minutes) ts (t ∷ []) in
    let distances = sum-map-append (λ (t : Transfer). t.distance_m) ts (t ∷ []) in
    let longer = length-append {0} ts (t ∷ []) in
    (w, omega arith, omega arith, omega arith, omega arith)

take_transfer-IsTallied :
    (x : TransferItem) (s : DayState) → IsTallied s → IsTallied (take_transfer x s)
unfolding take_transfer
take_transfer-IsTallied x s h = elim (Bool-cases (ltb x.duration_minutes 180)) [
  | inl short ↦ rw short (Tallies-append s.transfers _ h)
  | inr long ↦ rw long (Tallies-append s.transfers _ h)
]

-- No item of a timeline is a TransferItem, so the loop over the items counts nothing.
pub count_legs-eq_self : (items : List DayItem) (s : DayState) → count_legs items s ≡ s
count_legs-eq_self [] s = refl
count_legs-eq_self (scheduled a ∷ xs) s = count_legs-eq_self xs s
count_legs-eq_self (transfer_dict x ∷ xs) s = count_legs-eq_self xs s

move_on-IsTallied : (o : Option DayItem) (s : DayState) → IsTallied s → IsTallied (move_on o s)
move_on-IsTallied none s h = h
move_on-IsTallied (some (transfer_dict x)) s h = h
move_on-IsTallied (some (scheduled (visit a))) s h = h
move_on-IsTallied (some (scheduled (check_in c))) s h = h
move_on-IsTallied (some (scheduled (journey j))) s h = h

module _ (p : Planner) (daily : TimeWindow) (services : DayServices) where
  stay-IsTallied :
      (k : ℕ) (c : Cluster) (s : DayState) → IsTallied s → IsTallied (stay p daily services k c s)
  unfolding stay
  stay-IsTallied k c s h = rw count_legs-eq_self (move_on-IsTallied _ _ h)

  arrive-IsTallied :
      (k : ℕ) (c : Cluster) (s : DayState)
      → IsTallied s
      → IsTallied (arrive p daily services k c s).1
  unfolding arrive
  arrive-IsTallied k c s h = gone s.current_location c.home_base
    where
      tried :
          (hotel : Location) (x : TransferItem × RouteCache)
          → IsTallied (try_transfer p daily services hotel x s).1
      tried hotel (x, cache) =
          in_either (λ (r : Bool × DayState). IsTallied r.1) (ltb daily.end _) (λ late. h)
            (λ fits. both IsTallied (ltb 0 x.duration_minutes) (take_transfer-IsTallied x _ h) h)

      gone :
          (here : Option Location) (base : Option HomeBase)
          → IsTallied (go_to p daily services k c here base s).1
      gone none base = h
      gone (some here) none = h
      gone (some here) (some base) =
          both (λ (r : Bool × DayState). IsTallied r.1) (ltb 100 _) (tried base.location _) h

  route_clusters-IsTallied :
      (k : ℕ) (cs : List Cluster) (s : DayState)
      → IsTallied s
      → IsTallied (route_clusters p daily services k cs s)
  unfolding route_clusters
  route_clusters-IsTallied k [] s h = h
  route_clusters-IsTallied k (c ∷ cs) s h =
      let arrived = arrive-IsTallied k c s h in
      both_cases IsTallied (arrive p daily services k c s).0
        (route_clusters-IsTallied (k + 1) cs _ (stay-IsTallied k c _ arrived)) arrived

-- The summary of a day counts the transfers of that day.
abbrev pub IsSummed : {A : Type 0} → Day A → Type 0
IsSummed d =
    let s = d.travel_summary in
    Tallies d.transfers s.walking_time_minutes s.transport_time_minutes s.intercity_transfers_count
      s.intercity_total_minutes s.total_distance_m

pub route_day_enhanced-IsSummed :
    (p : Planner) (daily : TimeWindow) (services : DayServices) (clusters : List Cluster)
    (previous : Option Location) (day_number : ℕ) (cache : RouteCache)
    → IsSummed (route_day_enhanced p daily services clusters previous day_number cache).0
unfolding route_day_enhanced
route_day_enhanced-IsSummed p daily services clusters previous day_number cache =
    route_clusters-IsTallied p daily services 0 clusters _
      (begin_day-IsTallied day_number daily.start clusters (start_location previous clusters) cache)
