-- ===== src/Constraints/Windows.antt =====
-- `generate_time_windows`, `to_minutes` and `_detect_time_conflicts` of
-- services/ortools_advanced_constraints.py. `lower` is `str.lower`, `contains` the test that a text
-- has another in it, `numbered` the text of a place's number. A ValueError is `other_error`.
use Prim.Native.String.{String}
use text.Mathlib.Text.{◌==◌ as str_eq}
use goveling_ml.Prelude.{
  ℕ, suc, ◌+◌, ◌*◌, Bool, true, false, ◌&&◌, ◌||◌, List, [], ◌∷◌, ◌++◌, leb, if◌then◌else◌,
}
use goveling_ml.Prelude.Int.{ℤ, pos, sub_ℕ, ltb_ℤ}
use goveling_ml.Prelude.Exceptions.{Result, ok, err, other_error, and_then}
use goveling_ml.Prelude.Table.{set}
use goveling_ml.Schedule.Windows.{or_default}
use goveling_ml.Decision.Complexity.{member}
use goveling_ml.Constraints.{Place, Preferences, Time, TimeWindow}

abbrev pub minutes_of : Time → ℕ
minutes_of t = t.hour * 60 + t.minute

unfoldable pub to_minutes : TimeWindow → ℕ × ℕ
to_minutes w =
    let day_minutes = w.day_offset * 24 * 60 in
    (minutes_of w.start_time + day_minutes, minutes_of w.end_time + day_minutes)

-- `time(hour, 0)` raises above 23.
abbrev pub time_at : ℕ → Result Time
time_at hour = if leb hour 23 then ok (record { hour = hour; minute = 0 }) else err other_error

abbrev pub window : ℕ → ℕ → Bool → Result TimeWindow
window from until is_required = and_then (time_at from) (λ s.
    and_then (time_at until) (λ e.
      ok (record { start_time = s; end_time = e; day_offset = 0; is_required = is_required })))

module _ (lower : String → String) (contains : String → String → Bool) (numbered : ℕ → String) where
  abbrev pub any_keyword : String → List String → Bool
  any_keyword name [] = false
  any_keyword name (k ∷ ks) = contains name k || any_keyword name ks

  unfoldable pub generate_restaurant_time_window : Place → Result TimeWindow
  generate_restaurant_time_window p =
      let name = lower (or_default p.name "") in
      if any_keyword name ("breakfast" ∷ "cafe" ∷ "coffee" ∷ [])
      then window 7 11 false
      else if any_keyword name ("lunch" ∷ "almuerzo" ∷ [])
      then window 12 15 true
      else if any_keyword name ("dinner" ∷ "cena" ∷ "night" ∷ [])
      then window 19 22 true
      else window 12 22 false

  abbrev pub place_type_of : Place → String
  place_type_of p = or_default p.kind (or_default p.category "attraction")

  abbrev pub window_of : Preferences → Place → Result TimeWindow
  window_of prefs p =
      let place_type = place_type_of p in
      if member place_type ("restaurant" ∷ "cafe" ∷ "bar" ∷ [])
      then generate_restaurant_time_window p
      else if member place_type ("museum" ∷ "gallery" ∷ "monument" ∷ [])
      then window 10 17 true
      else if member place_type ("park" ∷ "beach" ∷ "natural_feature" ∷ [])
      then window 8 17 false
      else if member place_type ("shopping" ∷ "shopping_mall" ∷ "store" ∷ [])
      then window 10 20 false
      else window (or_default prefs.daily_start_hour 9) (or_default prefs.daily_end_hour 18) false

  abbrev pub windows_from :
      Preferences
      → ℕ
      → List Place
      → List (String × TimeWindow)
      → Result (List (String × TimeWindow))
  windows_from prefs i [] d = ok d
  windows_from prefs i (p ∷ ps) d =
      and_then (window_of prefs p)
        (λ w. windows_from prefs (suc i) ps (set str_eq (or_default p.id (numbered i)) w d))

  unfoldable pub generate_time_windows :
      List Place → Preferences → Result (List (String × TimeWindow))
  unfolding generate_restaurant_time_window
  generate_time_windows places prefs = windows_from prefs 0 places []

pub data Conflict : Type 0 where
  very_narrow : String → ℤ → Conflict
  short_hard_constraint : String → Conflict

abbrev pub duration : TimeWindow → ℤ
duration w = let (start_min, end_min) = to_minutes w in sub_ℕ end_min start_min

abbrev pub conflicts_of : String × TimeWindow → List Conflict
conflicts_of (id, w) =
    (if ltb_ℤ (duration w) (pos 60) then very_narrow id (duration w) ∷ [] else [])
    ++ (if w.is_required && ltb_ℤ (duration w) (pos 120) then short_hard_constraint id ∷ [] else [])

unfoldable pub detect_time_conflicts : List (String × TimeWindow) → List Conflict
unfolding to_minutes
detect_time_conflicts [] = []
detect_time_conflicts (e ∷ d) = conflicts_of e ++ detect_time_conflicts d
