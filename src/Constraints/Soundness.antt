-- ===== src/Constraints/Soundness.antt =====
-- What the constraints of services/ortools_advanced_constraints.py guarantee.
use Prim.Native.String.{String}
use text.Mathlib.Text.{◌==◌ as str_eq}
use goveling_ml.Prelude.{
  ℕ, suc, ◌*◌, ◌≤◌, ◌<◌, ◌≡◌, refl, inl, inr, Bool, true, false, List, [], ◌∷◌, max, leb, arith,
  if◌then◌else◌, All, Bool-cases, both,
}
use goveling_ml.Prelude.Exceptions.{Result, ok, err, and_then}
use goveling_ml.Prelude.Table.{set}
use goveling_ml.Schedule.Windows.{or_default}
use goveling_ml.Decision.Complexity.{member}
use goveling_ml.Constraints.{Place, Preferences, TimeWindow}
use goveling_ml.Constraints.Windows.{
  to_minutes, window, any_keyword, generate_restaurant_time_window, place_type_of, window_of,
  windows_from, generate_time_windows, conflicts_of, detect_time_conflicts,
}
use goveling_ml.Constraints.Keys.{key, HaveWindows, KeepsOthers, set-KeepsOthers, set-lookup}
use goveling_ml.Constraints.Limits.{generate_vehicle_constraints, is_feasible}

-- A window that no conflict is reported for.
abbrev pub IsWide : TimeWindow → Type 0
IsWide w = (id : String) → conflicts_of (id, w) ≡ []

abbrev pub GivesWide : Result TimeWindow → Type 0
GivesWide (ok w) = IsWide w
GivesWide (err e) = ⊥

window-GivesWide :
    (from until : ℕ) → from < until → until ≤ 23 → GivesWide (window from until false)
unfolding to_minutes
window-GivesWide from until h le =
    let a : leb from 23 ≡ true = ground arith in
    let b : leb until 23 ≡ true = ground arith in rw (a, b) (λ id. ground arith)

window-GivesWide_required :
    (from until : ℕ) → suc from < until → until ≤ 23 → GivesWide (window from until true)
unfolding to_minutes
window-GivesWide_required from until h le =
    let a : leb from 23 ≡ true = ground arith in
    let b : leb until 23 ≡ true = ground arith in rw (a, b) (λ id. ground arith)

module _ (lower : String → String) (contains : String → String → Bool) (numbered : ℕ → String) where
  restaurant-GivesWide :
      (p : Place) → GivesWide (generate_restaurant_time_window lower contains numbered p)
  unfolding generate_restaurant_time_window
  restaurant-GivesWide p =
      let has = any_keyword lower contains numbered (lower (or_default p.name "")) in
      by_keyword (has ("breakfast" ∷ "cafe" ∷ "coffee" ∷ [])) (has ("lunch" ∷ "almuerzo" ∷ []))
        (has ("dinner" ∷ "cena" ∷ "night" ∷ []))
    where
      by_keyword :
          (a b c : Bool)
          → GivesWide (
              if a
              then window 7 11 false
              else if b
              then window 12 15 true
              else if c
              then window 19 22 true
              else window 12 22 false)
      by_keyword true b c = window-GivesWide 7 11 (omega arith) (omega arith)
      by_keyword false true c = window-GivesWide_required 12 15 (omega arith) (omega arith)
      by_keyword false false true = window-GivesWide_required 19 22 (omega arith) (omega arith)
      by_keyword false false false = window-GivesWide 12 22 (omega arith) (omega arith)

  window_of-GivesWide :
      (prefs : Preferences) (p : Place)
      → or_default prefs.daily_start_hour 9 < or_default prefs.daily_end_hour 18
      → or_default prefs.daily_end_hour 18 ≤ 23
      → GivesWide (window_of lower contains numbered prefs p)
  window_of-GivesWide prefs p h le =
      let among = member (place_type_of lower contains numbered p) in
      by_type (among ("restaurant" ∷ "cafe" ∷ "bar" ∷ []))
        (among ("museum" ∷ "gallery" ∷ "monument" ∷ []))
        (among ("park" ∷ "beach" ∷ "natural_feature" ∷ []))
        (among ("shopping" ∷ "shopping_mall" ∷ "store" ∷ []))
    where
      by_type :
          (a b c d : Bool)
          → GivesWide (
              if a
              then generate_restaurant_time_window lower contains numbered p
              else if b
              then window 10 17 true
              else if c
              then window 8 17 false
              else if d
              then window 10 20 false
              else window
                  (or_default prefs.daily_start_hour 9)
                  (or_default prefs.daily_end_hour 18)
                  false)
      by_type true b c d = restaurant-GivesWide p
      by_type false true c d = window-GivesWide_required 10 17 (omega arith) (omega arith)
      by_type false false true d = window-GivesWide 8 17 (omega arith) (omega arith)
      by_type false false false true = window-GivesWide 10 20 (omega arith) (omega arith)
      by_type false false false false = window-GivesWide _ _ h le

set-All :
    (k : String) (w : TimeWindow) (d : List (String × TimeWindow))
    → IsWide w
    → All (λ e. IsWide e.1) d
    → All (λ e. IsWide e.1) (set str_eq k w d)
set-All k w [] p h = (p, tt)
set-All k w ((j, v) ∷ d) p h =
    both (λ (x : List (String × TimeWindow)). All (λ e. IsWide e.1) x) (str_eq j k) (p, h.1)
      (h.0, set-All k w d p h.1)

detect-none :
    (d : List (String × TimeWindow)) → All (λ e. IsWide e.1) d → detect_time_conflicts d ≡ []
unfolding detect_time_conflicts
detect-none [] h = refl
detect-none ((k, w) ∷ d) h = rw (h.0 k, detect-none d h.1) refl

module _ (lower : String → String) (contains : String → String → Bool) (numbered : ℕ → String) where
  then_wide :
      {A : Type 0} (r : Result TimeWindow) (f : TimeWindow → Result A) (P : A → Type 0)
      → GivesWide r
      → ((w : TimeWindow) → r ≡ ok w → IsWide w → (a : A) × (f w ≡ ok a) × P a)
      → (a : A) × (and_then r f ≡ ok a) × P a
  then_wide (ok w) f P h k = k w refl h
  then_wide (err e) f P h k = elim h [ ]

  -- What the table of windows holds once the places from number i on are entered in it.
  abbrev IsComplete :
      Preferences
      → ℕ
      → List Place
      → List (String × TimeWindow)
      → List (String × TimeWindow)
      → Type 0
  IsComplete prefs i ps d r =
      All (λ e. IsWide e.1) r
      × KeepsOthers lower contains numbered i ps d r
      × HaveWindows lower contains numbered prefs i ps r

  enter-IsComplete :
      (prefs : Preferences) (i : ℕ) (p : Place) (ps : List Place) (w : TimeWindow)
      (d r : List (String × TimeWindow))
      → window_of lower contains numbered prefs p ≡ ok w
      → IsComplete prefs (suc i) ps (set str_eq (key lower contains numbered i p) w d) r
      → IsComplete prefs i (p ∷ ps) d r
  enter-IsComplete prefs i p ps w d r e (wide, keeps, have) = (
    wide,
    set-KeepsOthers lower contains numbered i p ps w d r keeps,
    (
      elim (set-lookup lower contains numbered i p ps w d r keeps) [
        | inl shared ↦ inl shared
        | inr kept ↦ inr (w, e, kept)
      ],
      have,
    ),
  )

  windows_from-IsComplete :
      (prefs : Preferences)
      → or_default prefs.daily_start_hour 9 < or_default prefs.daily_end_hour 18
      → or_default prefs.daily_end_hour 18 ≤ 23
      → (i : ℕ) (ps : List Place) (d : List (String × TimeWindow)) → All (λ e. IsWide e.1) d
      → (r : List (String × TimeWindow)) × (windows_from lower contains numbered prefs i ps d
          ≡ ok r)
        × IsComplete prefs i ps d r
  windows_from-IsComplete prefs h le i [] d all = (d, refl, (all, λ k. inr refl, tt))
  windows_from-IsComplete prefs h le i (p ∷ ps) d all =
      then_wide (window_of lower contains numbered prefs p) _ (IsComplete prefs i (p ∷ ps) d)
        (window_of-GivesWide lower contains numbered prefs p h le)
        (λ w e wide.
          let (r, result, complete) =
            windows_from-IsComplete prefs h le (suc i) ps _ (set-All _ w d wide all) in
          (r, result, enter-IsComplete prefs i p ps w d r e complete))

  -- If a day begins before it ends and ends by 23 o'clock, then the windows are generated without an
  -- exception, every place finds under its key the window of its type, unless a later place has the
  -- same key, and no conflict is reported.
  pub generate_time_windows_lem :
      (places : List Place) (prefs : Preferences)
      → or_default prefs.daily_start_hour 9 < or_default prefs.daily_end_hour 18
      → or_default prefs.daily_end_hour 18 ≤ 23
      → (d : List (String × TimeWindow)) × (generate_time_windows lower contains numbered places
            prefs
          ≡ ok d)
        × HaveWindows lower contains numbered prefs 0 places d
        × (detect_time_conflicts d ≡ [])
  unfolding generate_time_windows
  generate_time_windows_lem places prefs h le =
      let (d, result, (wide, keeps, have)) = windows_from-IsComplete prefs h le 0 places [] tt in
      (d, result, have, detect-none d wide)

margin : (t m : ℕ) → t * (2 * m) ≤ 3 * t * m
margin t m = grind arith

-- A trip by car is feasible exactly if it is at most 500 km for each of its days: the margin of half
-- the average never decides.
pub is_feasible_driving :
    (total n : ℕ) (prefs : Preferences)
    → str_eq (or_default prefs.transport_mode "driving") "walking" ≡ false
    → str_eq (or_default prefs.transport_mode "driving") "driving" ≡ true
    → or_default prefs.duration_days 1 ≡ suc n
    → is_feasible total prefs ≡ leb total (500000 * suc n)
unfolding is_feasible generate_vehicle_constraints
is_feasible_driving total n prefs not_walking drives days =
    elim (Bool-cases (leb (500000 * (2 * max 1 (suc n))) (3 * total))) [
      | inl far ↦ rw (not_walking, drives, days, far) (ground arith)
      | inr near ↦ rw (not_walking, drives, days, near) (ground (arith, margin total (suc n)))
    ]
