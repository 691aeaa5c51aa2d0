-- ===== src/MultiCity/Failure.antt =====
-- When `_optimize_intercity_hybrid` of services/multi_city_optimizer.py raises.
use Prim.Native.String.{String}
use mathlib.Core.Path.{subst}
use goveling_ml.Prelude.{
  ℕ, zero, suc, ◌≡◌, refl, sym, Bool, true, false, ◌||◌, Option, none, some, List, [], ◌∷◌,
}
use goveling_ml.Prelude.Int.{ℤ, pos, negsuc, ◌+ℤ◌}
use goveling_ml.Prelude.Exceptions.{Result, ok, err, zero_division, and_then}
use goveling_ml.MultiCity.{Poi, City}
use goveling_ml.MultiCity.Sequence.{find_optimal_city_sequence}
use goveling_ml.MultiCity.Shares.{bonus_weight, distribute_days_among_cities}
use goveling_ml.MultiCity.Plan.{city_days}
use goveling_ml.MultiCity.Full.{
  Item, simple_distribution, if_successful, optimize_city_pois_with_ortools, add_city, add_cities,
  optimize_intercity_hybrid,
}

abbrev pub IsUnsuccessful : Result (Option (List Item)) → Type 0
IsUnsuccessful (ok none) = Unit
IsUnsuccessful (ok (some items)) = ⊥
IsUnsuccessful (err e) = Unit

-- Places, but no day for them.
abbrev pub is_stranded : List Poi → ℤ → Bool
is_stranded [] days = false
is_stranded (p ∷ ps) (pos zero) = true
is_stranded (p ∷ ps) (pos (suc n)) = false
is_stranded (p ∷ ps) (negsuc n) = false

abbrev pub any_stranded : List (String × ℤ) → List City → Bool
any_stranded d [] = false
any_stranded d (c ∷ cs) = is_stranded c.pois (city_days d c) || any_stranded d cs

-- It raises ZeroDivisionError if the test holds, and gives a result if not.
abbrev pub RaisesIf {ℓ} : {A : Type ℓ} → Bool → Result A → Type ℓ
RaisesIf {A = A} true r = r ≡ err zero_division
RaisesIf {A = A} false r = (a : A) × (r ≡ ok a)

module _ (lower : String → String) (geodesic : ℤ × ℤ → ℤ × ℤ → ℕ)
    (integrator : List Poi → ℤ → Result (Option (List Item)))
    (unsuccessful : (ps : List Poi) (days : ℤ) → IsUnsuccessful (integrator ps days)) where
  if_successful-simple :
      (ps : List Poi) (days : ℤ) (r : Result (Option (List Item)))
      → IsUnsuccessful r
      → if_successful lower geodesic integrator ps days r ≡ simple_distribution ps days
  if_successful-simple ps days (ok none) h = refl
  if_successful-simple ps days (ok (some items)) h = elim h [ ]
  if_successful-simple ps days (err e) h = refl

  add_city-RaisesIf :
      (ps : List Poi) (days current : ℤ) (s : List (ℤ × List Poi))
      → RaisesIf (is_stranded ps days) (add_city lower geodesic integrator ps days current s)
  unfolding optimize_city_pois_with_ortools simple_distribution
  add_city-RaisesIf [] days current s = (s, refl)
  add_city-RaisesIf (p ∷ ps) (pos zero) current s =
      rw (if_successful-simple (p ∷ ps) (pos zero) _ (unsuccessful (p ∷ ps) (pos zero))) refl
  add_city-RaisesIf (p ∷ ps) (pos (suc n)) current s =
      rw (if_successful-simple (p ∷ ps) (pos (suc n)) _ (unsuccessful (p ∷ ps) (pos (suc n))))
        (_, refl)
  add_city-RaisesIf (p ∷ ps) (negsuc n) current s =
      rw (if_successful-simple (p ∷ ps) (negsuc n) _ (unsuccessful (p ∷ ps) (negsuc n))) (_, refl)

  -- One step after the other.
  and_then-RaisesIf :
      {A B : Type 0} (p q : Bool) (r : Result A) (f : A → Result B)
      → RaisesIf p r
      → ((a : A) → RaisesIf q (f a))
      → RaisesIf (p || q) (and_then r f)
  and_then-RaisesIf true q r f h k = rw h refl
  and_then-RaisesIf false q r f h k = subst (λ x. RaisesIf q (and_then x f)) (sym h.1) (k h.0)

  then_ok :
      {A B : Type 0} (p : Bool) (r : Result A) (g : A → B)
      → RaisesIf p r
      → RaisesIf p (and_then r (λ a. ok (g a)))
  then_ok true r g h = rw h refl
  then_ok false r g h =
      subst (λ x. RaisesIf false (and_then x (λ a. ok (g a)))) (sym h.1) (g h.0, refl)

  add_cities-RaisesIf :
      (d : List (String × ℤ)) (cs : List City) (current : ℤ) (s : List (ℤ × List Poi))
      → RaisesIf (any_stranded d cs) (add_cities lower geodesic integrator d cs current s)
  add_cities-RaisesIf d [] current s = (s, refl)
  add_cities-RaisesIf d (c ∷ cs) current s =
      let days = city_days d c in
      and_then-RaisesIf (is_stranded c.pois days) (any_stranded d cs) _ _
        (add_city-RaisesIf c.pois days current s)
        (λ t. add_cities-RaisesIf d cs (current +ℤ days) t)

  -- As long as the integrator has no success, planning raises ZeroDivisionError if the distribution
  -- leaves a city that has places without a day, and gives an itinerary in every other case.
  pub optimize_intercity_hybrid-RaisesIf :
      (cities : List City) (n : ℕ) (start : Option String)
      → RaisesIf
          (any_stranded
            (distribute_days_among_cities (bonus_weight lower) cities n)
            (find_optimal_city_sequence geodesic cities start))
          (optimize_intercity_hybrid lower geodesic integrator cities n start)
  unfolding optimize_intercity_hybrid
  optimize_intercity_hybrid-RaisesIf cities n start =
      let d = distribute_days_among_cities (bonus_weight lower) cities n in
      let sequence = find_optimal_city_sequence geodesic cities start in
      then_ok (any_stranded d sequence) (add_cities lower geodesic integrator d sequence (pos 1) [])
        (λ schedules. record { cities = sequence; daily_schedules = schedules })
        (add_cities-RaisesIf d sequence (pos 1) [])
