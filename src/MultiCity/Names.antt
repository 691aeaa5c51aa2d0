-- ===== src/MultiCity/Names.antt =====
-- Cities with different names: their entries in the dictionary of days
-- (services/multi_city_optimizer_simple.py).
use Prim.Native.String.{String}
use text.Mathlib.Text.{◌==◌ as str_eq}
use text.Mathlib.TextEquality.{eq_iff}
use mathlib.Core.Bool.{true≢false}
use mathlib.Core.Path.{subst}
use goveling_ml.Prelude.{
  ℕ, zero, suc, ◌≡◌, refl, sym, ap, ◌∙◌, inl, inr, true, false, Option, List, [], ◌∷◌, ◌++◌, map,
  leb, ◌==◌, sum, All, All-mono, Bool-cases, in_either, both,
}
use goveling_ml.Prelude.Int.{ℤ, pos}
use goveling_ml.Prelude.Table.{set, update}
use mathlib.Core.List.{append_assoc}
use goveling_ml.MultiCity.{City}
use goveling_ml.MultiCity.Slices.{append_nil}
use goveling_ml.MultiCity.Sequence.{
  has_name, first_stop, others, distance_to, nearest, visit_from, find_optimal_city_sequence,
}
use goveling_ml.MultiCity.Tour.{IsDistinct, other_name, nearest-All, visit_from-All}
use goveling_ml.MultiCity.Shares.{
  weights_from, city_weights, max_city, rounded_days, share, as_days, distribute_days_among_cities,
}
use goveling_ml.MultiCity.Plan.{city_days}
use goveling_ml.MultiCity.Totals.{values}

abbrev pub Differs : City → City → Type 0
Differs c d = ¬ (d.name ≡ c.name)

others-differ : (x : City) (cs : List City) → All (Differs x) (others x cs)
others-differ x [] = tt
others-differ x (c ∷ cs) = elim (Bool-cases (has_name x.name c)) [
  | inl same ↦ rw same (others-differ x cs)
  | inr other ↦ rw other ((λ p. other_differs p other), others-differ x cs)
]
  where
    other_differs : c.name ≡ x.name → has_name x.name c ≡ false → ⊥
    other_differs p other = true≢false (sym ((eq_iff c.name x.name).1 p) ∙ other)

others-All : (P : City → Type 0) (x : City) (cs : List City) → All P cs → All P (others x cs)
others-All P x [] h = tt
others-All P x (c ∷ cs) h = elim (Bool-cases (has_name x.name c)) [
  | inl same ↦ rw same (others-All P x cs h.1)
  | inr other ↦ rw other (h.0, others-All P x cs h.1)
]

others-IsDistinct : (x : City) (cs : List City) → IsDistinct cs → IsDistinct (others x cs)
others-IsDistinct x [] h = tt
others-IsDistinct x (c ∷ cs) h = elim (Bool-cases (has_name x.name c)) [
  | inl same ↦ rw same (others-IsDistinct x cs h.1)
  | inr other ↦ rw other (others-All (Differs c) x cs h.0, others-IsDistinct x cs h.1)
]

module _ (geodesic : ℤ × ℤ → ℤ × ℤ → ℕ) where
  nearest-IsDistinct :
      (x c : City) (cs : List City)
      → IsDistinct (c ∷ cs)
      → let (best, rest) = nearest geodesic x c cs in IsDistinct (best ∷ rest)
  nearest-IsDistinct x c [] h = h
  nearest-IsDistinct x c (d ∷ ds) h =
      let (best, rest) = nearest geodesic x d ds in
      let later = nearest-IsDistinct x d ds h.1 in
      let differ = nearest-All geodesic (Differs c) x d ds h.0 in
      in_either (λ (e : City × List City). IsDistinct (e.0 ∷ e.1))
        (leb (distance_to geodesic x c) (distance_to geodesic x best)) (λ near. h)
        (λ far. (((λ p. differ.0 (sym p)), later.0), (differ.1, later.1)))

  visit_from-IsDistinct :
      (n : ℕ) (x : City) (cs : List City)
      → IsDistinct (x ∷ cs)
      → IsDistinct (visit_from geodesic n x cs)
  visit_from-IsDistinct n x [] h = h
  visit_from-IsDistinct zero x (c ∷ cs) h = (tt, tt)
  visit_from-IsDistinct (suc n) x (c ∷ cs) h = (
    visit_from-All geodesic (Differs x) n _ _ (nearest-All geodesic (Differs x) x c cs h.0),
    visit_from-IsDistinct n _ _ (nearest-IsDistinct x c cs h.1),
  )

  pub sequence-IsDistinct :
      (cities : List City) (start : Option String)
      → IsDistinct cities
      → IsDistinct (find_optimal_city_sequence geodesic cities start)
  unfolding find_optimal_city_sequence
  sequence-IsDistinct [] start h = tt
  sequence-IsDistinct (c ∷ []) start h = h
  sequence-IsDistinct (c ∷ d ∷ cs) start h =
      let x = first_stop start c (d ∷ cs) in
      visit_from-IsDistinct _ x _ (others-differ x (c ∷ d ∷ cs), others-IsDistinct x (c ∷ d ∷ cs) h)

-- The entries of the cities, in their order.
abbrev pub entries : {V : Type 0} → (City → V) → List City → List (String × V)
entries f cs = map (λ c. (c.name, f c)) cs

set-fresh :
    {V : Type 0} (f : City → V) (c : City) (cs : List City)
    → All (λ d. ¬ (c.name ≡ d.name)) cs
    → set str_eq c.name (f c) (entries f cs) ≡ entries f cs ++ (c.name, f c) ∷ []
set-fresh f c [] h = refl
set-fresh f c (d ∷ ds) h =
    rw (other_name c d (λ p. h.0 (sym p))) (ap (λ e. (d.name, f d) ∷ e) (set-fresh f c ds h.1))

-- Every city of the first list has another name than every city of the second.
abbrev IsApart : List City → List City → Type 0
IsApart ds cs = All (λ c. All (λ d. ¬ (c.name ≡ d.name)) ds) cs

append-IsApart :
    (ds cs : List City) (x : City) → IsApart ds cs → All (Differs x) cs → IsApart (ds ++ x ∷ []) cs
append-IsApart ds [] x h all = tt
append-IsApart ds (c ∷ cs) x h all = (append-All ds h.0, append-IsApart ds cs x h.1 all.1)
  where
    append-All :
        (es : List City)
        → All (λ d. ¬ (c.name ≡ d.name)) es
        → All (λ d. ¬ (c.name ≡ d.name)) (es ++ x ∷ [])
    append-All [] a = (all.0, tt)
    append-All (e ∷ es) a = (a.0, append-All es a.1)

entries-append :
    {V : Type 0} (f : City → V) (ds : List City) (x : City)
    → entries f (ds ++ x ∷ []) ≡ entries f ds ++ (x.name, f x) ∷ []
entries-append f [] x = refl
entries-append f (d ∷ ds) x = ap (λ e. (d.name, f d) ∷ e) (entries-append f ds x)

weights_from-entries :
    (weight : City → ℕ) (ds cs : List City)
    → IsApart ds cs
    → IsDistinct cs
    → weights_from weight cs (entries weight ds) ≡ entries weight (ds ++ cs)
weights_from-entries weight ds [] apart distinct = ap (entries weight) (sym (append_nil ds))
weights_from-entries weight ds (c ∷ cs) apart distinct =
    ap (weights_from weight cs) (set-fresh weight c ds apart.0 ∙ sym (entries-append weight ds c))
    ∙ weights_from-entries weight (ds ++ c ∷ []) cs (append-IsApart ds cs c apart.1 distinct.0)
        distinct.1
    ∙ ap (entries weight) (append_assoc ds (c ∷ []) cs)

-- What a city reads is its own entry.
city_days-skip :
    (j : String) (v : ℤ) (d : List (String × ℤ)) (cs : List City)
    → All (λ c. ¬ (c.name ≡ j)) cs
    → map (city_days ((j, v) ∷ d)) cs ≡ map (city_days d) cs
city_days-skip j v d [] h = refl
city_days-skip j v d (c ∷ cs) h = elim (Bool-cases (str_eq j c.name)) [
  | inl same ↦ absurd (h.0 (sym ((eq_iff j c.name).0 same)))
  | inr other ↦ rw other (ap (λ e. city_days d c ∷ e) (city_days-skip j v d cs h.1))
]

-- The keys are the names of the cities, in their order.
abbrev pub HasKeys : {V : Type 0} → List (String × V) → List City → Type 0
HasKeys [] [] = Unit
HasKeys [] (c ∷ cs) = ⊥
HasKeys (e ∷ d) [] = ⊥
HasKeys ((k, v) ∷ d) (c ∷ cs) = (k ≡ c.name) × HasKeys d cs

entries-HasKeys : {V : Type 0} (f : City → V) (cs : List City) → HasKeys (entries f cs) cs
entries-HasKeys f [] = tt
entries-HasKeys f (c ∷ cs) = (refl, entries-HasKeys f cs)

map-HasKeys :
    {V W : Type 0} (f : String × V → W) (d : List (String × V)) (cs : List City)
    → HasKeys d cs
    → HasKeys (map (λ e. (e.0, f e)) d) cs
map-HasKeys f [] [] h = tt
map-HasKeys f [] (c ∷ cs) h = h
map-HasKeys f (e ∷ d) [] h = h
map-HasKeys f ((k, v) ∷ d) (c ∷ cs) h = (h.0, map-HasKeys f d cs h.1)

update-HasKeys :
    {V : Type 0} (k : String) (f : V → V) (d : List (String × V)) (cs : List City)
    → HasKeys d cs
    → HasKeys (update str_eq k f d) cs
update-HasKeys k f [] [] h = tt
update-HasKeys k f [] (c ∷ cs) h = h
update-HasKeys k f (e ∷ d) [] h = elim h [ ]
update-HasKeys k f ((j, v) ∷ d) (c ∷ cs) h =
    both (λ e. HasKeys e (c ∷ cs)) (str_eq j k) h (h.0, update-HasKeys k f d cs h.1)

city_days-values :
    (d : List (String × ℤ)) (cs : List City)
    → HasKeys d cs
    → IsDistinct cs
    → map (city_days d) cs ≡ values d
city_days-values [] [] keys distinct = refl
city_days-values [] (c ∷ cs) keys distinct = elim keys [ ]
city_days-values (e ∷ d) [] keys distinct = elim keys [ ]
city_days-values ((k, v) ∷ d) (c ∷ cs) keys distinct =
    let here : str_eq k c.name ≡ true = (eq_iff k c.name).1 keys.0 in
    let others : All (λ x. ¬ (x.name ≡ k)) cs = All-mono (λ x h p. h (p ∙ keys.0)) cs distinct.0 in
    rw (here, city_days-skip k v d cs others)
      (ap (λ e. v ∷ e) (city_days-values d cs keys.1 distinct.1))

-- Cities with different names: every city reads its own entry of the distribution.
pub distribution-values :
    (weight : City → ℕ) (cs : List City) (n : ℕ)
    → IsDistinct cs
    → let d = distribute_days_among_cities weight cs n in map (city_days d) cs ≡ values d
unfolding distribute_days_among_cities
distribution-values weight [] n distinct = refl
distribution-values weight (c ∷ cs) n distinct =
    let w = city_weights weight (c ∷ cs) in
    let own : w ≡ entries weight (c ∷ cs) =
      weights_from-entries weight [] (c ∷ cs) (apart (c ∷ cs)) distinct in
    let keys : HasKeys w (c ∷ cs) =
      subst (λ d. HasKeys d (c ∷ cs)) (sym own) (entries-HasKeys weight (c ∷ cs)) in
    let days : HasKeys (map as_days (rounded_days w n)) (c ∷ cs) =
      map-HasKeys (λ e. pos e.1) (rounded_days w n) (c ∷ cs)
        (map-HasKeys (λ e. share e.1 (sum (values w)) n) w (c ∷ cs) keys) in
    city_days-values _ (c ∷ cs)
      (both (λ (d : List (String × ℤ)). HasKeys d (c ∷ cs)) (sum (values (rounded_days w n)) == n)
        days (update-HasKeys (max_city w) _ (map as_days (rounded_days w n)) (c ∷ cs) days))
      distinct
  where
    apart : (xs : List City) → IsApart [] xs
    apart [] = tt
    apart (x ∷ xs) = (tt, apart xs)
