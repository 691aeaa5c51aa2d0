-- ===== src/Days/Allocation.antt =====
-- `allocate_clusters_to_days` loses no place and doubles none (utils/hybrid_optimizer_v31.py).
use goveling_ml.Prelude.{
  ℕ, zero, suc, ◌*◌, ◌<◌, ◌≡◌, refl, ap, ◌∙◌, inl, inr, Bool, List, [], ◌∷◌, max, leb, arith,
  length, count_by, repeat, length-repeat, Bool-cases,
}
use goveling_ml.Prelude.Exceptions.{ok}
use goveling_ml.Prelude.Sort.{count_by-sorted}
use goveling_ml.Schedule.Data.{Location, Place, Cluster}
use goveling_ml.Days.Assign.{
  Assignment, Suggestion, group_same_day, group_pairs, distribute, distribute_far, singles,
  distribute_relaxed_mode, round_robin, pair_clusters, by_remoteness, follow, balanced_by,
  balanced_step, distribute_balanced_mode, evaluate_route_sequences, total_places,
  allocate_clusters_to_days,
}
use goveling_ml.Days.Pack.{all_clusters}
use goveling_ml.Days.Conservation.{
  places_of, tally, IsAdded, count_by-append, add_to_least-IsAdded, and_then-IsAdded,
  nothing-IsAdded, same_places-IsAdded, places_of-singles, places_of-pairs, intensive-IsAdded,
  round_robin-IsAdded, relaxed_from-IsAdded,
}

-- No cluster is without places.
abbrev pub HavePlaces : List Cluster → Type 0
HavePlaces [] = Unit
HavePlaces (c ∷ cs) = (0 < length c.places) × HavePlaces cs

tally-repeat : (p : Place → Bool) (n : ℕ) → tally p (repeat n []) ≡ 0
tally-repeat p zero = refl
tally-repeat p (suc n) = tally-repeat p n

module _ (distance : Location → Location → ℕ) (same_place : Place → Place → Bool) where
  round_robin-singles-IsAdded :
      (c : Cluster) (ps : List Place) (days : Assignment)
      → ((p : Place → Bool) → count_by p ps ≡ count_by p c.places)
      → 0 < length days
      → IsAdded (λ d. d) (c ∷ []) days (round_robin 0 (singles c ps) days)
  round_robin-singles-IsAdded c ps days same h =
      same_places-IsAdded (λ d. d) (singles c ps) (c ∷ []) days _
        (λ p.
          omega (
            arith,
            ap (count_by p) (places_of-singles c ps),
            count_by-append p c.places [],
            same p,
          ))
        (round_robin-IsAdded 0 (singles c ps) days h)

  follow-IsAdded :
      (s : Suggestion) (c : Cluster) (days : Assignment)
      → 0 < length days
      → IsAdded (λ d. d) (c ∷ []) days (follow distance same_place s c days)
  unfolding by_remoteness
  follow-IsAdded group_same_day c days h = add_to_least-IsAdded c days h
  follow-IsAdded group_pairs c days h =
      same_places-IsAdded (λ d. d) (pair_clusters c) (c ∷ []) days _
        (λ p.
          omega
            (arith, ap (count_by p) (places_of-pairs c c.places), count_by-append p c.places []))
        (intensive-IsAdded (pair_clusters c) days h)
  follow-IsAdded distribute c days h = round_robin-singles-IsAdded c c.places days (λ p. refl) h
  follow-IsAdded distribute_far c days h =
      round_robin-singles-IsAdded c (by_remoteness distance same_place c.places) days
        (λ p. count_by-sorted _ p c.places) h

  balanced_by-IsAdded :
      (ps : List Place) (c : Cluster) (days : Assignment)
      → 0 < length ps
      → 0 < length days
      → IsAdded (λ d. d) (c ∷ []) days (balanced_by distance same_place ps c days)
  balanced_by-IsAdded [] c days k h = absurd (omega arith)
  balanced_by-IsAdded (p ∷ []) c days k h = add_to_least-IsAdded c days h
  balanced_by-IsAdded (p ∷ q ∷ ps) c days k h =
      follow-IsAdded (evaluate_route_sequences distance same_place (p ∷ q ∷ ps)) c days h

  balanced-IsAdded :
      (cs : List Cluster) (days : Assignment)
      → HavePlaces cs
      → 0 < length days
      → IsAdded (λ d. d) cs days (distribute_balanced_mode distance same_place cs days)
  unfolding distribute_balanced_mode balanced_step
  balanced-IsAdded [] days k h = nothing-IsAdded (λ d. d) days
  balanced-IsAdded (c ∷ cs) days k h =
      and_then-IsAdded (λ d. d) (λ d. d) (c ∷ []) cs days (balanced_step distance same_place c days)
        _ (balanced_by-IsAdded c.places c days k.0 h)
        (λ out n. balanced-IsAdded cs out k.1 (omega (arith, n)))

  allocate-IsAdded :
      (cs : List Cluster) (num_days : ℕ)
      → 0 < num_days
      → HavePlaces cs
      → IsAdded
          (λ d. d)
          cs
          (repeat num_days [])
          (allocate_clusters_to_days distance same_place cs num_days)
  unfolding allocate_clusters_to_days distribute_relaxed_mode
  allocate-IsAdded cs n h k =
      let empty : List Cluster = [] in
      let days : Assignment = repeat n empty in
      let some_day : 0 < length days = omega (arith, length-repeat n empty) in
      let places = max (total_places cs) 1 in
      elim (Bool-cases (leb (3 * places) (2 * n))) [
        | inl relaxed ↦ rw relaxed (relaxed_from-IsAdded 0 cs (repeat n []) some_day)
        | inr dense ↦ elim (Bool-cases (leb (4 * places) (5 * n))) [
          | inl balanced ↦ rw (dense, balanced) (balanced-IsAdded cs (repeat n []) k some_day)
          | inr intensive ↦ rw (dense, intensive) (intensive-IsAdded cs (repeat n []) some_day)
        ]
      ]

  -- For a trip of at least one day and clusters that all have places, the allocation never raises,
  -- whatever the distances suggest; it gives the clusters to as many days as there are, and every
  -- test on places finds as many of them in the days as in the clusters: none is lost or doubled.
  pub allocate_clusters_to_days_lem :
      (clusters : List Cluster) (num_days : ℕ)
      → 0 < num_days
      → HavePlaces clusters
      → (days : Assignment) × (allocate_clusters_to_days distance same_place clusters num_days
          ≡ ok days)
        × (length days ≡ num_days)
        × ((p : Place → Bool)
            → count_by p (places_of (all_clusters days)) ≡ count_by p (places_of clusters))
  allocate_clusters_to_days_lem cs n h k =
      let (days, e, m, t) = allocate-IsAdded cs n h k in
      (days, e, m ∙ length-repeat n [], λ p. omega (arith, t p, tally-repeat p n))
