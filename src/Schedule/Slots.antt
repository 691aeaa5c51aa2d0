-- ===== src/Schedule/Slots.antt =====
-- `_find_best_time_slot` and the choice of a start in utils/hybrid_optimizer_v31.py.
use Prim.Native.String.{String}
use goveling_ml.Prelude.{
  ℕ, ◌+◌, ◌≤◌, ◌<◌, ◌≡◌, refl, ◌⊎◌, inl, inr, ◌↔◌, false, ◌&&◌, none, some, List, [], ◌∷◌, ltb, leb,
  arith, Bool-cases,
}
use goveling_ml.Schedule.Data.{TimeWindow, Location, Place, Eta}
use goveling_ml.Schedule.Windows.{
  or_default, get_preferred_time_window, find_best_time_slot, estimate_activity_duration,
}
use goveling_ml.Schedule.Route.{choose_start}

-- A visit of the duration that starts at t lies in one of the windows.
abbrev pub FitsSome : List TimeWindow → ℕ → ℕ → Type 0
FitsSome [] duration t = ⊥
FitsSome (w ∷ ws) duration t = ((w.start ≤ t) × (t + duration ≤ w.end)) ⊎ FitsSome ws duration t

abbrev IsBestSlot : ℕ → ℕ → List TimeWindow → ℕ → Type 0
IsBestSlot e d ws r =
    (e ≤ r) × (FitsSome ws d r ⊎ ((r ≡ e) × ((t : ℕ) → e ≤ t → ¬ FitsSome ws d t)))

-- A window that no start from e on fits does not change what is best.
skip_window :
    (e d : ℕ) (w : TimeWindow) (ws : List TimeWindow) {r : ℕ}
    → (leb w.start e && leb (e + d) w.end) ≡ false
    → (ltb e w.start && leb (w.start + d) w.end) ≡ false
    → IsBestSlot e d ws r
    → IsBestSlot e d (w ∷ ws) r
skip_window e d w ws not_now never (late, inl fits) = (late, inl (inr fits))
skip_window e d w ws not_now never (late, inr (same, none_fits)) =
    (late, inr (same, λ t h x. elim x [ inl (p, q) ↦ ground arith | inr y ↦ none_fits t h y ]))

-- The slot is not before the earliest start, and it lies in a preferred window whenever any start
-- from then on does; if none does, it is the earliest start itself.
pub find_best_time_slot_lem :
    (earliest duration : ℕ) (ws : List TimeWindow)
    → (earliest ≤ find_best_time_slot earliest duration ws)
      × (FitsSome ws duration (find_best_time_slot earliest duration ws)
          ⊎ ((find_best_time_slot earliest duration ws ≡ earliest)
              × ((t : ℕ) → earliest ≤ t → ¬ FitsSome ws duration t)))
unfolding find_best_time_slot
find_best_time_slot_lem e d [] = (omega arith, inr (refl, λ t h f. f))
find_best_time_slot_lem e d (w ∷ ws) = elim (Bool-cases (leb w.start e && leb (e + d) w.end)) [
  | inl now ↦ rw now (omega arith, inl (inl (ground arith, ground arith)))
  | inr not_now ↦ elim (Bool-cases (ltb e w.start && leb (w.start + d) w.end)) [
    | inl later ↦ rw (not_now, later) (ground arith, inl (inl (omega arith, ground arith)))
    | inr never ↦
        rw (not_now, never) (skip_window e d w ws not_now never (find_best_time_slot_lem e d ws))
  ]
]

module _ (lower : String → String) (eta : ℕ → Location → Location → Eta) (daily : TimeWindow)
    (mode : String) (p : Place) (now : ℕ) where
  -- A chosen start is not before the time at hand, and the visit ends within the day.
  pub choose_start_bounds :
      (start : ℕ)
      → choose_start lower eta daily mode p now ≡ some start
      → (now ≤ start) × (start + estimate_activity_duration lower p ≤ daily.end)
  unfolding choose_start
  choose_start_bounds start e = ground (
    arith,
    find_best_time_slot_lem now (estimate_activity_duration lower p)
        (get_preferred_time_window lower (or_default p.kind "") daily),
  )

  -- The loop gives up on a place only if a visit that started right away would end after the day.
  pub choose_start-none :
      (choose_start lower eta daily mode p now ≡ none)
      ↔ (daily.end < now + estimate_activity_duration lower p)
  unfolding choose_start
  choose_start-none = ground (
    arith,
    (find_best_time_slot_lem now (estimate_activity_duration lower p)
        (get_preferred_time_window lower (or_default p.kind "") daily)).0,
  )
