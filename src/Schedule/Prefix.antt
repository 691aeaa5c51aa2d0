-- ===== src/Schedule/Prefix.antt =====
-- Which places of a cluster get an activity (utils/hybrid_optimizer_v31.py).
use Prim.Native.String.{String}
use mathlib.Core.List.{Perm}
use goveling_ml.Prelude.{
  ℕ, ◌+◌, ◌≤◌, ◌<◌, ◌≡◌, refl, inl, inr, Option, List, [], ◌∷◌, leb, arith, Option-cases,
}
use goveling_ml.Prelude.Sort.{sorted, IsSorted, sorted-IsSorted, sorted-perm}
use goveling_ml.Schedule.Data.{TimeWindow, Location, Place, HomeBase, Cluster, ActivityItem, Eta}
use goveling_ml.Schedule.Windows.{
  estimate_activity_duration, sort_places_by_time_preference, time_preference_score,
}
use goveling_ml.Schedule.Route.{
  visit, choose_start, make_activity, travel_minutes, next_request, route_places,
  route_cluster_with_time_windows, activity_places,
}
use goveling_ml.Schedule.Timeline.{finish-activities, day_start}
use goveling_ml.Schedule.Slots.{choose_start_bounds, choose_start-none}

-- The order of visits is a rearrangement of the places in which no score is followed by a higher one.
pub sort_places-IsSorted :
    (lower : String → String) (places : List Place) (now : ℕ)
    → Perm (sort_places_by_time_preference lower places now) places
      × IsSorted
          (λ p q. leb (time_preference_score lower now q) (time_preference_score lower now p))
          (sort_places_by_time_preference lower places now)
unfolding sort_places_by_time_preference
sort_places-IsSorted lower places now =
    (sorted-perm _ places, sorted-IsSorted _ (λ p q h. ground arith) places)

module _ (lower : String → String) (eta : ℕ → Location → Location → Eta) (daily : TimeWindow)
    (mode : String) where
  -- The activity is at the place, under its name and for its estimated time.
  abbrev pub IsVisit : ActivityItem → Place → Type 0
  IsVisit a p =
      (a.name ≡ p.name)
      × (a.location ≡ p.location)
      × (a.duration_minutes ≡ estimate_activity_duration lower p)

  -- From a time on the activities are visits of the first places, in order; after the last of them
  -- no place is left, or the next one would end after the day even if it started on arrival.
  abbrev pub Visits : ℕ → ℕ → Location → List ActivityItem → List Place → Type 0
  Visits request time here [] [] = Unit
  Visits request time here [] (p ∷ ps) =
      daily.end
      < time
        + travel_minutes lower eta daily mode request here p
        + estimate_activity_duration lower p
  Visits request time here (a ∷ as_) [] = ⊥
  Visits request time here (a ∷ as_) (p ∷ ps) =
      IsVisit a p
      × (time + travel_minutes lower eta daily mode request here p ≤ a.start_time)
      × Visits (next_request request here p) a.end_time p.location as_ ps

  pub visit-Visits :
      (request time : ℕ) (here : Location) (ps : List Place)
      → Visits request time here (visit lower eta daily mode request time here ps).activities ps
  unfolding visit make_activity
  visit-Visits request time here [] = tt
  visit-Visits request time here (p ∷ ps) =
      elim (Option-cases (
        choose_start lower eta daily mode p
          (time + travel_minutes lower eta daily mode request here p))) [
            | inl full ↦ rw full ((choose_start-none lower eta daily mode p _).0 full)
            | inr (start, e) ↦
                (let (late, ends) = choose_start_bounds lower eta daily mode p _ start e in
                  rw e (
                    (refl, refl, refl),
                    late,
                    visit-Visits (next_request request here p)
                        (start + estimate_activity_duration lower p) p.location ps,
                  ))
          ]

  -- The activities of a day visit the first of its places that are no accommodation, in order of
  -- their scores; each starts no earlier than the arrival there, and the rest of the places is left
  -- out only if the first of them does not fit into the day even when its visit starts on arrival.
  pub route_cluster-Visits :
      (cluster : Cluster) (start_time : ℕ) (nowhere : Location)
      → Visits 0 start_time
          (day_start cluster.home_base cluster.places nowhere)
          (route_cluster_with_time_windows lower eta daily mode cluster start_time).0
          (activity_places lower eta daily mode cluster.places start_time)
  unfolding route_cluster_with_time_windows sort_places_by_time_preference sorted
  route_cluster-Visits cluster start_time nowhere = places cluster.home_base cluster.places
    where
      places :
          (home : Option HomeBase) (ps : List Place)
          → Visits 0 start_time
              (day_start home ps nowhere)
              (route_places lower eta daily mode home ps start_time).0
              (activity_places lower eta daily mode ps start_time)
      places home [] = tt
      places home (p ∷ ps) =
          rw finish-activities
            (visit-Visits 0 start_time _ (activity_places lower eta daily mode (p ∷ ps) start_time))
