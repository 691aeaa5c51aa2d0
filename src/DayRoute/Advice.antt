-- ===== src/DayRoute/Advice.antt =====
-- `_generate_actionable_recommendations` of utils/hybrid_optimizer_v31.py. A recommendation is its
-- title with the data that depend on the day. `lower` and `mentions_restaurant` are Python's
-- `str.lower` and `'restaurant' in text`.
use Prim.Native.String.{String}
use goveling_ml.Prelude.{
  ℕ, ◌-◌, ◌/◌, Bool, List, [], ◌∷◌, ◌++◌, map, max, ltb, ◌==◌, if◌then◌else◌, length, filter_by,
  count_by, sum,
}
use goveling_ml.Schedule.Data.{TimeWindow}
use goveling_ml.DayRoute.Data.{Scheduled, check_in, journey, visit, Transfer, FreeBlock}

pub data Recommendation : Type 0 where
  add_activities : ℕ → ℕ → ℕ → Recommendation
  optimize_transport : List Transfer → Recommendation
  add_restaurants : Recommendation
  add_meal : Recommendation
  add_breaks : ℕ → Recommendation

-- The free blocks come as dictionaries, which have no attribute `duration_minutes`: each counts 0.
abbrev pub block_minutes : FreeBlock → ℕ
block_minutes b = 0

abbrev pub maximum : List ℕ → ℕ
maximum [] = 0
maximum (x ∷ xs) = max x (maximum xs)

module _ (lower : String → String) (mentions_restaurant : String → Bool) where
  abbrev pub scheduled_type_of : Scheduled → String
  scheduled_type_of (check_in c) = "hotel"
  scheduled_type_of (journey j) = j.place_type
  scheduled_type_of (visit a) = a.place_type

  abbrev pub restaurant_count : List Scheduled → ℕ
  restaurant_count = count_by (λ a. mentions_restaurant (lower (scheduled_type_of a)))

  abbrev pub about_meals : ℕ → List Recommendation
  about_meals count =
      if count == 0 then add_restaurants ∷ [] else if count == 1 then add_meal ∷ [] else []

abbrev pub about_time : List FreeBlock → List Recommendation
about_time blocks =
    let total = sum (map block_minutes blocks) in
    if ltb 180 total
    then add_activities total (length blocks) (maximum (map block_minutes blocks)) ∷ []
    else []

abbrev pub long_transfers : List Transfer → List Transfer
long_transfers = filter_by (λ t. ltb 120 t.duration_minutes)

abbrev pub about_transport : List Transfer → List Recommendation
about_transport [] = []
about_transport (t ∷ ts) = optimize_transport (t ∷ ts) ∷ []

abbrev pub about_day : TimeWindow → List Recommendation
about_day daily =
    let hours = daily.end / 60 - daily.start / 60 in
    if ltb 14 hours then add_breaks hours ∷ [] else []

unfoldable pub generate_actionable_recommendations :
    (String → String)
    → (String → Bool)
    → List Scheduled
    → List Transfer
    → List FreeBlock
    → TimeWindow
    → List Recommendation
generate_actionable_recommendations lower mentions_restaurant activities transfers blocks daily =
    about_time blocks
    ++ about_transport (long_transfers transfers)
    ++ about_meals lower mentions_restaurant (restaurant_count lower mentions_restaurant activities)
    ++ about_day daily
