-- ===== src/Days/Pack.antt =====
-- `pack_activities_by_strategy` of utils/hybrid_optimizer_v31.py, with 6 for the setting
-- MAX_ACTIVITIES_PER_DAY.
use Prim.Native.String.{String}
use text.Mathlib.Text.{◌==◌ as str_eq}
use goveling_ml.Prelude.{ℕ, suc, List, [], ◌∷◌, ◌++◌, map, ltb, leb, if◌then◌else◌, length, get_or}
use goveling_ml.Prelude.Exceptions.{Result, ok}
use goveling_ml.Schedule.Data.{Cluster}
use goveling_ml.Days.Assign.{Assignment, add_to, round_robin}

abbrev pub max_activities_per_day : ℕ
max_activities_per_day = 6

abbrev pub all_clusters : Assignment → List Cluster
all_clusters [] = []
all_clusters (d ∷ ds) = d ++ all_clusters ds

-- The index of the current day, and the days.
unfoldable pub compact_step : Cluster → ℕ × Assignment → ℕ × Assignment
compact_step c (i, days) =
    if ltb i (length days)
    then (let days' = add_to i c days in
        (if leb max_activities_per_day (length (get_or days' i [])) then suc i else i, days'))
    else (i, days)

unfoldable pub compact_from : List Cluster → ℕ × Assignment → Assignment
unfolding compact_step
compact_from [] s = s.1
compact_from (c ∷ cs) s = compact_from cs (compact_step c s)

abbrev pub emptied : Assignment → Assignment
emptied = map (λ d. [])

unfoldable pub pack_compact : Assignment → Assignment
unfolding compact_from
pack_compact days = compact_from (all_clusters days) (0, emptied days)

unfoldable pub pack_balanced : Assignment → Result Assignment
unfolding round_robin
pack_balanced days = round_robin 0 (all_clusters days) (emptied days)

unfoldable pub pack_cluster_first : Assignment → Assignment
pack_cluster_first days = days

unfoldable pub pack_activities_by_strategy : Assignment → String → Result Assignment
unfolding pack_compact pack_balanced pack_cluster_first
pack_activities_by_strategy days strategy =
    if str_eq strategy "compact"
    then ok (pack_compact days)
    else if str_eq strategy "cluster_first"
    then ok (pack_cluster_first days)
    else pack_balanced days
