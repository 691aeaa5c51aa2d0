-- ===== src/Schedule/Windows.antt =====
-- Time windows, durations and the order of visits in utils/hybrid_optimizer_v31.py. `lower` is
-- Python's `str.lower`.
use Prim.Native.String.{String}
use text.Mathlib.Text.{◌==◌ as str_eq}
use goveling_ml.Prelude.{
  ℕ, ◌+◌, ◌*◌, ◌&&◌, ◌||◌, Option, none, some, List, [], ◌∷◌, leb, ltb, min, max, if◌then◌else◌,
}
use goveling_ml.Prelude.Sort.{sorted}
use goveling_ml.Schedule.Data.{TimeWindow, Place}

abbrev pub or_default {ℓ} : {A : Type ℓ} → Option A → A → A
or_default none d = d
or_default (some a) d = a

unfoldable pub get_preferred_time_window : (String → String) → String → TimeWindow → List TimeWindow
get_preferred_time_window lower place_type daily =
    let kind = lower place_type in
    if str_eq kind "restaurant"
    then record { start = 12 * 60; end = 15 * 60 } ∷ record { start = 19 * 60; end = 22 * 60 } ∷ []
    else if str_eq kind "museum"
    then record { start = max daily.start (10 * 60); end = min daily.end (17 * 60) } ∷ []
    else if str_eq kind "shopping"
    then record { start = max daily.start (10 * 60); end = min daily.end (20 * 60) } ∷ []
    else daily ∷ []

unfoldable pub find_best_time_slot : ℕ → ℕ → List TimeWindow → ℕ
find_best_time_slot earliest_start duration [] = earliest_start
find_best_time_slot earliest_start duration (w ∷ ws) =
    let rest = find_best_time_slot earliest_start duration ws in
    if leb w.start earliest_start && leb (earliest_start + duration) w.end
    then earliest_start
    else if ltb earliest_start w.start && leb (w.start + duration) w.end
    then w.start
    else rest

unfoldable pub estimate_activity_duration : (String → String) → Place → ℕ
estimate_activity_duration lower place =
    let kind = lower (or_default place.kind "") in
    if str_eq kind "restaurant"
    then 90
    else if str_eq kind "museum"
    then 120
    else if str_eq kind "tourist_attraction"
    then 90
    else if str_eq kind "shopping"
    then 120
    else if str_eq kind "park"
    then 60
    else if str_eq kind "entertainment"
    then 180
    else 60

unfoldable pub time_preference_score : (String → String) → ℕ → Place → ℕ
time_preference_score lower current_time place =
    if str_eq (lower (or_default place.kind "")) "restaurant"
    then (if leb (12 * 60) current_time && leb current_time (12 * 60 + 180)
        then 1000
        else if leb (19 * 60) current_time && leb current_time (19 * 60 + 180)
        then 1000
        else or_default place.priority 5)
    else or_default place.priority 5

-- `sorted(places, key=time_preference_score, reverse=True)`, which keeps the order of equal keys.
unfoldable pub sort_places_by_time_preference : (String → String) → List Place → ℕ → List Place
unfolding time_preference_score
sort_places_by_time_preference lower places current_time =
    sorted
      (λ p q.
        leb (time_preference_score lower current_time q)
          (time_preference_score lower current_time p))
      places

unfoldable pub decide_mode_by_distance : ℕ → String → String
decide_mode_by_distance distance_m requested_mode =
    if leb distance_m 2000
    then "walk"
    else if leb distance_m 15000
    then (if str_eq requested_mode "walk" || str_eq requested_mode "transit"
        then "transit"
        else "drive")
    else "drive"
