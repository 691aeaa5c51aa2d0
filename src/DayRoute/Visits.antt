-- ===== src/DayRoute/Visits.antt =====
-- The activities of a cluster lie between the time of its arrival and the end of the day
-- (utils/hybrid_optimizer_v31.py, `_route_cluster_with_time_windows`).
use Prim.Native.String.{String}
use goveling_ml.Prelude.{
  ℕ, ◌+◌, ◌≤◌, ◌≡◌, refl, inl, inr, Option, none, some, List, [], ◌∷◌, arith, Option-cases, both,
  All, All-mono, All-append,
}
use goveling_ml.Schedule.Data.{
  TimeWindow, Location, Place, HomeBase, Cluster, ActivityItem, TimelineItem, transfer, activity,
  Eta, same_location,
}
use goveling_ml.Schedule.Windows.{estimate_activity_duration}
use goveling_ml.Schedule.Route.{
  Leg, choose_start, make_activity, travel, travel_minutes, next_request, return_to, finish,
  route_places, activity_places, first_location, route_cluster_with_time_windows, visit,
}
use goveling_ml.Schedule.Slots.{choose_start_bounds}

-- An activity that begins no earlier than a time and ends by the end of the day.
abbrev pub Within : TimeWindow → ℕ → ActivityItem → Type 0
Within daily time a =
    (time ≤ a.start_time)
    × (a.end_time ≡ a.start_time + a.duration_minutes)
    × (a.end_time ≤ daily.end)

abbrev pub WithinItem : TimeWindow → ℕ → TimelineItem → Type 0
WithinItem daily time (transfer x) = Unit
WithinItem daily time (activity a) = Within daily time a

pub Within-mono :
    (daily : TimeWindow) (early late : ℕ)
    → early ≤ late
    → (a : ActivityItem) → Within daily late a
    → Within daily early a
Within-mono daily early late h a k = (omega arith, k.1, k.2)

pub WithinItem-mono :
    (daily : TimeWindow) (early late : ℕ)
    → early ≤ late
    → (x : TimelineItem) → WithinItem daily late x
    → WithinItem daily early x
WithinItem-mono daily early late h (transfer x) k = tt
WithinItem-mono daily early late h (activity a) k = Within-mono daily early late h a k

module _ (lower : String → String) (eta : ℕ → Location → Location → Eta) (daily : TimeWindow)
    (mode : String) where
  abbrev LegWithin : ℕ → Leg → Type 0
  LegWithin time leg =
      All (Within daily time) leg.activities × All (WithinItem daily time) leg.timeline

  travel-Within :
      (request time : ℕ) (here : Location) (p : Place)
      → All (WithinItem daily time) (travel lower eta daily mode request here p)
  travel-Within request time here p =
      both (All (WithinItem daily time)) (same_location here p.location) tt (tt, tt)

  visit-Within :
      (request time : ℕ) (here : Location) (ps : List Place)
      → LegWithin time (visit lower eta daily mode request time here ps)
  unfolding visit make_activity
  visit-Within request time here [] = (tt, tt)
  visit-Within request time here (p ∷ ps) =
      elim (Option-cases (
        choose_start lower eta daily mode p
          (time + travel_minutes lower eta daily mode request here p))) [
            | inl full ↦ rw full (tt, travel-Within request time here p)
            | inr (start, e) ↦
                (let (late, ends) = choose_start_bounds lower eta daily mode p _ start e in
                  let minutes = estimate_activity_duration lower p in
                  let rest =
                    visit-Within (next_request request here p) (start + minutes) p.location ps in
                  let early : time ≤ start + minutes = omega arith in
                  rw e (
                    (
                      (omega arith, refl, ends),
                      All-mono (Within-mono daily time (start + minutes) early) _ rest.0,
                    ),
                    All-append (WithinItem daily time) (travel lower eta daily mode request here p)
                        _ (travel-Within request time here p)
                        (
                          (omega arith, refl, ends),
                          All-mono (WithinItem-mono daily time (start + minutes) early) _ rest.1,
                        ),
                  ))
          ]

  abbrev pub PairWithin : ℕ → List ActivityItem × List TimelineItem → Type 0
  PairWithin time r = All (Within daily time) r.0 × All (WithinItem daily time) r.1

  return_to-Within :
      (time : ℕ) (hotel : HomeBase) (leg : Leg) (done : List ActivityItem)
      → All (WithinItem daily time) (return_to lower eta daily mode hotel leg done)
  return_to-Within time hotel leg [] = tt
  return_to-Within time hotel leg (a ∷ rest) =
      both (All (WithinItem daily time)) (same_location leg.location hotel.location) tt (tt, tt)

  finish-Within :
      (time : ℕ) (home : Option HomeBase) (leg : Leg)
      → LegWithin time leg
      → PairWithin time (finish lower eta daily mode home leg)
  finish-Within time none leg h = h
  finish-Within time (some hotel) leg h = (
    h.0,
    All-append (WithinItem daily time) leg.timeline _ h.1
        (return_to-Within time hotel leg leg.activities),
  )

  pub route_cluster-Within :
      (c : Cluster) (time : ℕ)
      → PairWithin time (route_cluster_with_time_windows lower eta daily mode c time)
  unfolding route_cluster_with_time_windows
  route_cluster-Within c time = places c.home_base c.places
    where
      places :
          (home : Option HomeBase) (ps : List Place)
          → PairWithin time (route_places lower eta daily mode home ps time)
      places home [] = (tt, tt)
      places home (p ∷ ps) = finish-Within time home _ (
          visit-Within 0 time (first_location home p)
            (activity_places lower eta daily mode (p ∷ ps) time))
