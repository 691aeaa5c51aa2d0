-- ===== src/Tests/Trips.antt =====
-- Clusters over the days of a trip, for the distribution of utils/hybrid_optimizer_v31.py.
use goveling_ml.Prelude.{
  ℕ, ◌*◌, ◌≡◌, refl, Bool, none, List, [], ◌∷◌, map, length, take, count_by, arith, false,
}
use goveling_ml.Prelude.Int.{pos}
use goveling_ml.Prelude.Exceptions.{ok, err, other_error}
use goveling_ml.Schedule.Data.{Location, Place, Cluster}
use goveling_ml.Days.Assign.{Assignment, allocate_clusters_to_days, distribute_balanced_mode}
use goveling_ml.Days.Pack.{all_clusters, pack_compact}
use goveling_ml.Days.Conservation.{places_of}
use goveling_ml.Days.Allocation.{allocate_clusters_to_days_lem}
use goveling_ml.Days.Packing.{pack_compact-take}

abbrev at : ℕ → Place
at n = record {
  name = "Lugar";
  location = record { lat = pos n; lon = pos 0 };
  kind = none;
  place_type = none;
  priority = none;
  rating = none;
  image = none;
  address = none;
  quality_flag = none;
}

abbrev cluster_of : List Place → Cluster
cluster_of ps = record {
  centroid = record { lat = pos 0; lon = pos 0 };
  places = ps;
  home_base = none;
  home_base_source = "none";
}

-- Two clusters of three places and of one.
abbrev clusters : List Cluster
clusters = cluster_of (at 1 ∷ at 2 ∷ at 3 ∷ []) ∷ cluster_of (at 9 ∷ []) ∷ []

-- Everything is three kilometres apart, so places are grouped in pairs.
abbrev three_km : Location → Location → ℕ
three_km a b = 3000

abbrev never : Place → Place → Bool
never p q = false

in_pairs :
    allocate_clusters_to_days three_km never clusters 4
    ≡ ok (
        (cluster_of (at 1 ∷ at 2 ∷ []) ∷ [])
        ∷ (cluster_of (at 3 ∷ []) ∷ [])
        ∷ (cluster_of (at 9 ∷ []) ∷ [])
        ∷ []
        ∷ [])
unfolding allocate_clusters_to_days distribute_balanced_mode
in_pairs = refl

-- A cluster without places raises in the balanced mode.
no_places : distribute_balanced_mode three_km never (cluster_of [] ∷ []) ([] ∷ []) ≡ err other_error
unfolding distribute_balanced_mode
no_places = refl

allocate_clusters_to_days_lem_example :
    (days : Assignment) × (allocate_clusters_to_days three_km never clusters 4 ≡ ok days)
    × (length days ≡ 4)
    × ((p : Place → Bool)
        → count_by p (places_of (all_clusters days)) ≡ count_by p (places_of clusters))
allocate_clusters_to_days_lem_example =
    allocate_clusters_to_days_lem three_km never clusters 4 (omega arith)
      (omega arith, (omega arith, tt))

-- Eight clusters on the first of one day: the last two are lost.
abbrev crowded : Assignment
crowded =
    map cluster_of (
      (at 1 ∷ [])
      ∷ (at 2 ∷ [])
      ∷ (at 3 ∷ [])
      ∷ (at 4 ∷ [])
      ∷ (at 5 ∷ [])
      ∷ (at 6 ∷ [])
      ∷ (at 7 ∷ [])
      ∷ (at 8 ∷ [])
      ∷ [])
    ∷ []

lost : length (all_clusters (pack_compact crowded)) ≡ 6
unfolding pack_compact
lost = refl

pack_compact-take_example :
    all_clusters (pack_compact crowded) ≡ take (6 * length crowded) (all_clusters crowded)
pack_compact-take_example = pack_compact-take crowded
