-- ===== src/Constraints/Keys.antt =====
-- Under which keys `generate_time_windows` of services/ortools_advanced_constraints.py keeps the windows
-- of the places.
use Prim.Native.String.{String}
use text.Mathlib.Text.{◌==◌ as str_eq}
use text.Mathlib.TextEquality.{eq_iff}
use goveling_ml.Prelude.{
  ℕ, suc, ◌≡◌, refl, ap, ◌∙◌, ◌⊎◌, inl, inr, Bool, false, some, List, [], ◌∷◌, Bool-cases,
}
use goveling_ml.Prelude.Exceptions.{ok}
use goveling_ml.Prelude.Table.{lookup, set}
use goveling_ml.Schedule.Windows.{or_default}
use goveling_ml.Constraints.{Place, Preferences, TimeWindow}
use goveling_ml.Constraints.Windows.{window_of}

lookup-set :
    (k : String) (w : TimeWindow) (d : List (String × TimeWindow))
    → lookup str_eq k (set str_eq k w d) ≡ some w
lookup-set k w [] = rw ((eq_iff k k).1 refl) refl
lookup-set k w ((j, v) ∷ d) = elim (Bool-cases (str_eq j k)) [
  | inl same ↦ rw (same, same) refl
  | inr other ↦ rw (other, other) (lookup-set k w d)
]

-- Another key is not changed.
lookup-set_other :
    (j k : String) (w : TimeWindow) (d : List (String × TimeWindow))
    → str_eq j k ≡ false
    → lookup str_eq k (set str_eq j w d) ≡ lookup str_eq k d
lookup-set_other j k w [] h = rw h refl
lookup-set_other j k w ((i, v) ∷ d) h = elim (Bool-cases (str_eq i j)) [
  | inl same ↦
      (let differs : str_eq i k ≡ false = ap (λ t. str_eq t k) ((eq_iff i j).0 same) ∙ h in
        rw (same, differs) refl)
  | inr other ↦ elim (Bool-cases (str_eq i k)) [
    | inl here ↦ rw (other, here) refl
    | inr there ↦ rw (other, there) (lookup-set_other j k w d h)
  ]
]

module _ (lower : String → String) (contains : String → String → Bool) (numbered : ℕ → String) where
  -- The id of a place, or the text of its number.
  abbrev pub key : ℕ → Place → String
  key i p = or_default p.id (numbered i)

  -- A place from number i on has the key.
  abbrev pub Shares : String → ℕ → List Place → Type 0
  Shares k i [] = ⊥
  Shares k i (p ∷ ps) = (key i p ≡ k) ⊎ Shares k (suc i) ps

  -- Each place has the window of its type under its key, or a later place has the same key.
  abbrev pub HaveWindows : Preferences → ℕ → List Place → List (String × TimeWindow) → Type 0
  HaveWindows prefs i [] d = Unit
  HaveWindows prefs i (p ∷ ps) d =
      (Shares (key i p) (suc i) ps
        ⊎ ((w : TimeWindow) × (window_of lower contains numbered prefs p ≡ ok w)
            × (lookup str_eq (key i p) d ≡ some w)))
      × HaveWindows prefs (suc i) ps d

  -- What is kept under a key that no place from number i on has.
  abbrev pub KeepsOthers :
      ℕ → List Place → List (String × TimeWindow) → List (String × TimeWindow) → Type 0
  KeepsOthers i ps d r = (k : String) → Shares k i ps ⊎ (lookup str_eq k r ≡ lookup str_eq k d)

  pub set-KeepsOthers :
      (i : ℕ) (p : Place) (ps : List Place) (w : TimeWindow) (d r : List (String × TimeWindow))
      → KeepsOthers (suc i) ps (set str_eq (key i p) w d) r
      → KeepsOthers i (p ∷ ps) d r
  set-KeepsOthers i p ps w d r h k = elim (Bool-cases (str_eq (key i p) k)) [
    | inl same ↦ inl (inl ((eq_iff (key i p) k).0 same))
    | inr other ↦ elim (h k) [
      | inl shared ↦ inl (inr shared)
      | inr kept ↦ inr (kept ∙ lookup-set_other (key i p) k w d other)
    ]
  ]

  pub set-lookup :
      (i : ℕ) (p : Place) (ps : List Place) (w : TimeWindow) (d r : List (String × TimeWindow))
      → KeepsOthers (suc i) ps (set str_eq (key i p) w d) r
      → Shares (key i p) (suc i) ps ⊎ (lookup str_eq (key i p) r ≡ some w)
  set-lookup i p ps w d r h = elim (h (key i p)) [
    | inl shared ↦ inl shared
    | inr kept ↦ inr (kept ∙ lookup-set (key i p) w d)
  ]
