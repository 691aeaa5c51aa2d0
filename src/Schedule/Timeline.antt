-- ===== src/Schedule/Timeline.antt =====
-- The timeline of a day can be carried out (utils/hybrid_optimizer_v31.py,
-- `_route_cluster_with_time_windows`).
use Prim.Native.String.{String}
use goveling_ml.Prelude.{
  ℕ, ◌+◌, ◌≤◌, ◌≡◌, refl, sym, ap, ◌∙◌, inl, inr, true, Option, none, some, List, [], ◌∷◌, ◌++◌,
  arith, Bool-cases, Option-cases, length,
}
use mathlib.Core.List.{append-nil}
use goveling_ml.Schedule.Data.{
  TimeWindow, Location, same_location, Place, HomeBase, Cluster, TransferItem, ActivityItem,
  TimelineItem, transfer, activity, Eta,
}
use goveling_ml.Schedule.Windows.{estimate_activity_duration}
use goveling_ml.Schedule.Route.{
  Leg, visit, choose_start, make_transfer, make_activity, travel, travel_minutes, next_request,
  finish, return_to, route_places, route_cluster_with_time_windows, activity_places, first_location,
}
use goveling_ml.Schedule.Slots.{choose_start_bounds}

-- From a time and a location on: every transfer starts where the traveller is, every activity takes
-- place where the traveller is, starts no earlier than the arrival, lasts its duration, and ends by
-- the end of the day.
abbrev pub IsFeasible : TimeWindow → ℕ → Location → List TimelineItem → Type 0
IsFeasible daily time here [] = Unit
IsFeasible daily time here (transfer x ∷ rest) =
    (same_location here x.origin ≡ true)
    × IsFeasible daily (time + x.duration_minutes) x.destination rest
IsFeasible daily time here (activity a ∷ rest) =
    (same_location here a.location ≡ true)
    × (time ≤ a.start_time)
    × (a.end_time ≡ a.start_time + a.duration_minutes)
    × (a.end_time ≤ daily.end)
    × IsFeasible daily a.end_time a.location rest

pub same_location_refl : (a : Location) → same_location a a ≡ true
same_location_refl a = ground arith

module _ (lower : String → String) (eta : ℕ → Location → Location → Eta) (daily : TimeWindow)
    (mode : String) where
  -- A visit that starts after the travel, before what is feasible from its end.
  visit_step-IsFeasible :
      (request time start : ℕ) (here : Location) (p : Place) (rest : List TimelineItem)
      → time + travel_minutes lower eta daily mode request here p ≤ start
      → start + estimate_activity_duration lower p ≤ daily.end
      → IsFeasible daily (start + estimate_activity_duration lower p) p.location rest
      → IsFeasible daily time here (
          travel lower eta daily mode request here p
          ++ activity (make_activity lower eta daily mode p start) ∷ rest)
  unfolding make_transfer make_activity
  visit_step-IsFeasible request time start here p rest late ends h =
      elim (Bool-cases (same_location here p.location)) [
        | inl same ↦ rw same (same, (omega (arith, rw same at late)), refl, ends, h)
        | inr moved ↦ rw moved (
          same_location_refl here,
          (same_location_refl p.location, (omega (arith, rw moved at late)), refl, ends, h),
        )
      ]

  travel-IsFeasible :
      (request time : ℕ) (here : Location) (p : Place)
      → IsFeasible daily time here (travel lower eta daily mode request here p)
  unfolding make_transfer
  travel-IsFeasible request time here p = elim (Bool-cases (same_location here p.location)) [
    | inl same ↦ rw same tt
    | inr moved ↦ rw moved (same_location_refl here, tt)
  ]

  pub visit-IsFeasible :
      (request time : ℕ) (here : Location) (ps : List Place)
      → IsFeasible daily time here (visit lower eta daily mode request time here ps).timeline
  unfolding visit
  visit-IsFeasible request time here [] = tt
  visit-IsFeasible request time here (p ∷ ps) =
      elim (Option-cases (
        choose_start lower eta daily mode p
          (time + travel_minutes lower eta daily mode request here p))) [
            | inl full ↦ rw full (travel-IsFeasible request time here p)
            | inr (start, e) ↦
                (let (late, ends) = choose_start_bounds lower eta daily mode p _ start e in
                  rw e (
                    visit_step-IsFeasible request time start here p _ late ends (
                      visit-IsFeasible (next_request request here p)
                        (start + estimate_activity_duration lower p) p.location ps)))
          ]

-- Where the traveller is after a timeline.
abbrev at_end : Location → List TimelineItem → Location
at_end here [] = here
at_end here (transfer x ∷ rest) = at_end x.destination rest
at_end here (activity a ∷ rest) = at_end a.location rest

append_transfer-IsFeasible :
    (daily : TimeWindow) (time : ℕ) (here : Location) (items : List TimelineItem) (x : TransferItem)
    → IsFeasible daily time here items
    → same_location (at_end here items) x.origin ≡ true
    → IsFeasible daily time here (items ++ transfer x ∷ [])
append_transfer-IsFeasible daily time here [] x h same = (same, tt)
append_transfer-IsFeasible daily time here (transfer y ∷ rest) x h same =
    (h.0, append_transfer-IsFeasible daily _ y.destination rest x h.1 same)
append_transfer-IsFeasible daily time here (activity a ∷ rest) x (p, q, r, s, h) same =
    (p, q, r, s, append_transfer-IsFeasible daily a.end_time a.location rest x h same)

-- Where the day starts: at the home base, else at the first place.
abbrev pub day_start : Option HomeBase → List Place → Location → Location
day_start home [] nowhere = nowhere
day_start home (p ∷ ps) nowhere = first_location home p

module _ (lower : String → String) (eta : ℕ → Location → Location → Eta) (daily : TimeWindow)
    (mode : String) where
  at_end-travel :
      (request : ℕ) (here : Location) (p : Place) (a : ActivityItem) (rest : List TimelineItem)
      → at_end here (travel lower eta daily mode request here p ++ activity a ∷ rest)
        ≡ at_end a.location rest
  at_end-travel request here p a rest = elim (Bool-cases (same_location here p.location)) [
    | inl same ↦ rw same refl
    | inr moved ↦ rw moved refl
  ]

  -- If the loop gives up on no place, it stands where its timeline ends.
  at_end-visit :
      (request time : ℕ) (here : Location) (ps : List Place)
      → let leg = visit lower eta daily mode request time here ps in
        length leg.activities ≡ length ps → at_end here leg.timeline ≡ leg.location
  unfolding visit make_transfer make_activity
  at_end-visit request time here [] h = refl
  at_end-visit request time here (p ∷ ps) h =
      elim (Option-cases (
        choose_start lower eta daily mode p
          (time + travel_minutes lower eta daily mode request here p))) [
            | inl full ↦ absurd (omega (arith, rw full at h))
            | inr (start, e) ↦ rw e (
                at_end-travel request here p (make_activity lower eta daily mode p start) _
                ∙ at_end-visit (next_request request here p)
                    (start + estimate_activity_duration lower p) p.location ps
                    (omega (arith, rw e at h)))
          ]

  return-IsFeasible :
      (time : ℕ) (here : Location) (hotel : HomeBase) (leg : Leg) (done : List ActivityItem)
      → IsFeasible daily time here leg.timeline
      → at_end here leg.timeline ≡ leg.location
      → IsFeasible daily time here (leg.timeline ++ return_to lower eta daily mode hotel leg done)
  unfolding make_transfer
  return-IsFeasible time here hotel leg [] h e = rw append-nil h
  return-IsFeasible time here hotel leg (a ∷ rest) h e =
      elim (Bool-cases (same_location leg.location hotel.location)) [
        | inl same ↦ rw (same, append-nil) h
        | inr away ↦ rw away (
            append_transfer-IsFeasible daily time here leg.timeline _ h
              (rw e (same_location_refl leg.location)))
      ]

  finish-IsFeasible :
      (time : ℕ) (here : Location) (home : Option HomeBase) (leg : Leg)
      → IsFeasible daily time here leg.timeline
      → at_end here leg.timeline ≡ leg.location
      → IsFeasible daily time here (finish lower eta daily mode home leg).1
  finish-IsFeasible time here none leg h e = h
  finish-IsFeasible time here (some hotel) leg h e =
      return-IsFeasible time here hotel leg leg.activities h e

  pub finish-activities :
      (home : Option HomeBase) (leg : Leg)
      → (finish lower eta daily mode home leg).0 ≡ leg.activities
  finish-activities none leg = refl
  finish-activities (some hotel) leg = refl

  -- If every place that is no accommodation gets its activity, the whole timeline of the day, the
  -- way back to the hotel included, can be carried out from the start of the day: each transfer
  -- leaves from where the traveller is, each activity is where the traveller is, starts no earlier
  -- than the arrival there, lasts its duration and ends by the end of the day.
  pub route_cluster-IsFeasible :
      (cluster : Cluster) (start_time : ℕ) (nowhere : Location)
      → length (route_cluster_with_time_windows lower eta daily mode cluster start_time).0
        ≡ length (activity_places lower eta daily mode cluster.places start_time)
      → IsFeasible daily start_time
          (day_start cluster.home_base cluster.places nowhere)
          (route_cluster_with_time_windows lower eta daily mode cluster start_time).1
  unfolding route_cluster_with_time_windows
  route_cluster-IsFeasible cluster start_time nowhere h = places cluster.home_base cluster.places h
    where
      places :
          (home : Option HomeBase) (ps : List Place)
          → length (route_places lower eta daily mode home ps start_time).0
            ≡ length (activity_places lower eta daily mode ps start_time)
          → IsFeasible daily start_time
              (day_start home ps nowhere)
              (route_places lower eta daily mode home ps start_time).1
      places home [] k = tt
      places home (p ∷ ps) k =
          let here = first_location home p in
          let ps' = activity_places lower eta daily mode (p ∷ ps) start_time in
          finish-IsFeasible start_time here home (visit lower eta daily mode 0 start_time here ps')
            (visit-IsFeasible lower eta daily mode 0 start_time here ps')
            (at_end-visit 0 start_time here ps' (ap length (sym (finish-activities home _)) ∙ k))
