-- ===== src/MultiCity/Totals.antt =====
-- The sum of the days that the cities get (services/multi_city_optimizer.py).
use Prim.Native.String.{String}
use text.Mathlib.Text.{◌==◌ as str_eq}
use text.Mathlib.TextEquality.{eq_iff}
use goveling_ml.Prelude.{
  ℕ, ◌≤◌, ◌<◌, ◌≡◌, refl, sym, ap, ◌∙◌, ◌⊎◌, inl, inr, List, [], ◌∷◌, map, ltb, ◌==◌, arith, length,
  sum, All, Bool-cases, both,
}
use goveling_ml.Prelude.Int.{ℤ, pos, sub_ℕ, ◌+ℤ◌, ◌≤ℤ◌}
use goveling_ml.Prelude.Sums.{sum_ℤ, add_swap, add_assoc}
use goveling_ml.Prelude.Table.{set, update}
use goveling_ml.MultiCity.{City}
use goveling_ml.MultiCity.Shares.{
  heaviest, max_city, weights_from, city_weights, rounded_days, as_days, adjust, share,
  distribute_days_among_cities,
}

module _ {V : Type 0} where
  abbrev pub IsKey : String → List (String × V) → Type 0
  IsKey k [] = ⊥
  IsKey k ((j, v) ∷ d) = (j ≡ k) ⊎ IsKey k d

  abbrev pub values : List (String × V) → List V
  values d = map (λ e. e.1) d

-- What is added to the value of a key is added to the sum of the values.
sum-update :
    (k : String) (z : ℤ) (d : List (String × ℤ))
    → IsKey k d
    → sum_ℤ (values (update str_eq k (λ v. v +ℤ z) d)) ≡ sum_ℤ (values d) +ℤ z
sum-update k z [] o = elim o [ ]
sum-update k z ((j, v) ∷ d) (inl here) = rw ((eq_iff j k).1 here) (add_swap v (sum_ℤ (values d)) z)
sum-update k z ((j, v) ∷ d) (inr later) = elim (Bool-cases (str_eq j k)) [
  | inl same ↦ rw same (add_swap v (sum_ℤ (values d)) z)
  | inr other ↦
      rw other (ap (λ s. v +ℤ s) (sum-update k z d later) ∙ add_assoc v (sum_ℤ (values d)) z)
]

sum-as_days : (d : List (String × ℕ)) → sum_ℤ (values (map as_days d)) ≡ pos (sum (values d))
sum-as_days [] = refl
sum-as_days ((k, n) ∷ d) = ground (arith, sum-as_days d)

heaviest-IsKey :
    (e : String × ℕ) (d : List (String × ℕ)) → (heaviest e d ≡ e.0) ⊎ IsKey (heaviest e d) d
heaviest-IsKey (k, w) [] = inl refl
heaviest-IsKey (k, w) ((j, v) ∷ d) =
    both (λ e. (heaviest e d ≡ k) ⊎ IsKey (heaviest e d) ((j, v) ∷ d)) (ltb w v)
      (inr (shifted (heaviest-IsKey (j, v) d))) (kept (heaviest-IsKey (k, w) d))
  where
    shifted : {x : String} → (x ≡ j) ⊎ IsKey x d → (j ≡ x) ⊎ IsKey x d
    shifted (inl same) = inl (sym same)
    shifted (inr later) = inr later

    kept : {x : String} → (x ≡ k) ⊎ IsKey x d → (x ≡ k) ⊎ IsKey x ((j, v) ∷ d)
    kept (inl same) = inl same
    kept (inr later) = inr (inr later)

max_city-IsKey : (d : List (String × ℕ)) → 0 < length d → IsKey (max_city d) d
max_city-IsKey [] h = absurd (omega arith)
max_city-IsKey (e ∷ d) h = elim (heaviest-IsKey e d) [
  | inl first ↦ inl (sym first)
  | inr later ↦ inr later
]

pos_add_sub : (a n : ℕ) → pos a +ℤ sub_ℕ n a ≡ pos n
pos_add_sub a n = ground arith

map-IsKey :
    {V W : Type 0} (f : String × V → W) (k : String) (d : List (String × V))
    → IsKey k d
    → IsKey k (map (λ e. (e.0, f e)) d)
map-IsKey f k [] o = o
map-IsKey f k ((j, v) ∷ d) (inl here) = inl here
map-IsKey f k ((j, v) ∷ d) (inr later) = inr (map-IsKey f k d later)

length-set : (k : String) (w : ℕ) (d : List (String × ℕ)) → length d ≤ length (set str_eq k w d)
length-set k w [] = omega arith
length-set k w ((j, v) ∷ d) = elim (Bool-cases (str_eq j k)) [
  | inl same ↦ rw same (omega arith)
  | inr other ↦ rw other (omega (arith, length-set k w d))
]

weights_from-length :
    (weight : City → ℕ) (cs : List City) (d : List (String × ℕ))
    → length d ≤ length (weights_from weight cs d)
weights_from-length weight [] d = omega arith
weights_from-length weight (c ∷ cs) d = omega (
  arith,
  weights_from-length weight cs (set str_eq c.name (weight c) d),
  length-set c.name (weight c) d,
)

city_weights-length :
    (weight : City → ℕ) (c : City) (cs : List City) → 0 < length (city_weights weight (c ∷ cs))
city_weights-length weight c cs =
    omega (arith, weights_from-length weight cs ((c.name, weight c) ∷ []))

-- Every key but one has at least one day.
abbrev pub HasDays : String → String × ℤ → Type 0
HasDays k e = (e.0 ≡ k) ⊎ (pos 1 ≤ℤ e.1)

as_days-HasDays :
    (k : String) (t n : ℕ) (d : List (String × ℕ))
    → All (HasDays k) (map as_days (map (λ e. (e.0, share e.1 t n)) d))
as_days-HasDays k t n [] = tt
as_days-HasDays k t n ((j, v) ∷ d) = (inr (omega arith), as_days-HasDays k t n d)

update-HasDays :
    (k : String) (f : ℤ → ℤ) (d : List (String × ℤ))
    → All (HasDays k) d
    → All (HasDays k) (update str_eq k f d)
update-HasDays k f [] h = tt
update-HasDays k f ((j, v) ∷ d) h = elim (Bool-cases (str_eq j k)) [
  | inl same ↦ rw same (inl ((eq_iff j k).0 same), h.1)
  | inr other ↦ rw other (h.0, update-HasDays k f d h.1)
]

adjust_lem :
    (w : List (String × ℕ)) (n : ℕ)
    → 0 < length w
    → let d = adjust w (rounded_days w n) n in
      (sum_ℤ (values d) ≡ pos n) × All (HasDays (max_city w)) d
adjust_lem w n h =
    let days = rounded_days w n in
    let actual = sum (values days) in
    let all = as_days-HasDays (max_city w) (sum (values w)) n w in
    let key =
      map-IsKey (λ e. pos e.1) (max_city w) days
        (map-IsKey _ (max_city w) w (max_city-IsKey w h)) in
    let total = sum-as_days days in
    elim (Bool-cases (actual == n)) [
      | inl equal ↦ rw equal (total ∙ ap pos (ground arith), all)
      | inr differs ↦ rw differs (
        sum-update (max_city w) (sub_ℕ n actual) (map as_days days) key
            ∙ ap (λ s. s +ℤ sub_ℕ n actual) total
            ∙ pos_add_sub actual n,
        update-HasDays (max_city w) _ (map as_days days) all,
      )
    ]

-- However the shares are rounded, the days of the cities add up to the days of the trip, and every
-- city but the one with the greatest weight has at least one day.
pub distribute_days_among_cities_lem :
    (weight : City → ℕ) (c : City) (cs : List City) (total_days : ℕ)
    → let days = distribute_days_among_cities weight (c ∷ cs) total_days in
      (sum_ℤ (values days) ≡ pos total_days)
      × All (HasDays (max_city (city_weights weight (c ∷ cs)))) days
unfolding distribute_days_among_cities
distribute_days_among_cities_lem weight c cs total_days =
    adjust_lem (city_weights weight (c ∷ cs)) total_days (city_weights-length weight c cs)
