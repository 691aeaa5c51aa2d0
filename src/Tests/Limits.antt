-- ===== src/Tests/Limits.antt =====
-- Time windows and limits of services/ortools_advanced_constraints.py.
use Prim.Native.String.{String}
use text.Mathlib.Text.{find?}
use goveling_ml.Prelude.{ℕ, ◌≡◌, refl, Bool, true, false, none, some, List, [], ◌∷◌, map, arith}
use goveling_ml.Prelude.Int.{pos}
use goveling_ml.Prelude.Exceptions.{Result, ok, err, other_error}
use goveling_ml.Constraints.{Place, Preferences, TimeWindow}
use goveling_ml.Constraints.Windows.{
  to_minutes, generate_restaurant_time_window, generate_time_windows, very_narrow,
  detect_time_conflicts,
}
use goveling_ml.Constraints.Limits.{
  generate_vehicle_constraints, generate_accommodation_constraints, generate_intercity_constraints,
}
use goveling_ml.Constraints.Keys.{HaveWindows}
use goveling_ml.Constraints.Soundness.{generate_time_windows_lem}

abbrev keep : String → String
keep s = s

abbrev contains : String → String → Bool
contains s t = elim (find? s t) [ none ↦ false | some i ↦ true ]

abbrev numbered : ℕ → String
numbered i = "place"

abbrev ok_or_empty : {A : Type 0} → Result (List A) → List A
ok_or_empty (ok xs) = xs
ok_or_empty (err e) = []

abbrev diner : Place
diner = record { id = some "1"; name = some "cena real"; kind = some "restaurant"; category = none }

abbrev tower : Place
tower = record { id = none; name = some "tower"; kind = none; category = none }

abbrev prefs : Preferences
prefs = record {
  daily_start_hour = some 9;
  daily_end_hour = none;
  transport_mode = none;
  duration_days = some 3;
  budget = some "high";
  pace = none;
}

evening :
    map
      (λ e. to_minutes e.1)
      (ok_or_empty (generate_time_windows keep contains numbered (diner ∷ tower ∷ []) prefs))
    ≡ (1140, 1320) ∷ (540, 1080) ∷ []
unfolding generate_time_windows generate_restaurant_time_window to_minutes
evening = refl

-- A day that ends at 24 o'clock, and a day without hours.
midnight :
    generate_time_windows keep contains numbered
      (tower ∷ [])
      (record prefs { daily_end_hour = some 24 })
    ≡ err other_error
unfolding generate_time_windows
midnight = refl

narrow :
    detect_time_conflicts (
      ok_or_empty (
        generate_time_windows keep contains numbered
          (tower ∷ [])
          (record prefs { daily_end_hour = some 9 })))
    ≡ very_narrow "place" (pos 0) ∷ []
unfolding generate_time_windows detect_time_conflicts to_minutes
narrow = refl

limits : (generate_vehicle_constraints 900000 prefs).max_daily_num ≡ 2700000
unfolding generate_vehicle_constraints
limits = refl

nights :
    map {B = ℕ × ℕ}
      (λ c. (c.min_nights_per_city, c.max_nights_per_city))
      (generate_accommodation_constraints ((none, 9) ∷ (some "small", 1) ∷ []) prefs)
    ≡ (2, 5) ∷ (1, 3) ∷ []
unfolding generate_accommodation_constraints
nights = refl

flights : (generate_intercity_constraints prefs).prefer_flights_over ≡ 1200000
unfolding generate_intercity_constraints
flights = refl

generate_time_windows_lem_example :
    (d : List (String × TimeWindow)) × (generate_time_windows keep contains numbered
        (diner ∷ tower ∷ [])
        prefs
      ≡ ok d)
    × HaveWindows keep contains numbered prefs 0 (diner ∷ tower ∷ []) d
    × (detect_time_conflicts d ≡ [])
generate_time_windows_lem_example =
    generate_time_windows_lem keep contains numbered (diner ∷ tower ∷ []) prefs (omega arith)
      (omega arith)
