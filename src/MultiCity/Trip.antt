-- ===== src/MultiCity/Trip.antt =====
-- What the itinerary of a trip through several cities holds
-- (services/multi_city_optimizer_simple.py).
use Prim.Native.String.{String}
use text.Mathlib.Text.{◌==◌ as str_eq}
use mathlib.Core.List.{Perm, append_assoc}
use goveling_ml.Prelude.{
  ℕ, zero, suc, ◌+◌, ◌≡◌, refl, sym, ap, ◌∙◌, Option, List, [], ◌∷◌, ◌++◌, map, arith, length,
  length-append, All, both,
}
use goveling_ml.Prelude.Int.{ℤ, pos, pos_part, ◌+ℤ◌, ◌≤ℤ◌}
use goveling_ml.Prelude.Sums.{sum_ℤ}
use goveling_ml.Schedule.Windows.{or_default}
use goveling_ml.MultiCity.{Poi, City}
use goveling_ml.MultiCity.Sequence.{first_stop, others, visit_from, find_optimal_city_sequence}
use goveling_ml.MultiCity.Tour.{IsDistinct, find_optimal_city_sequence-IsGreedy}
use goveling_ml.MultiCity.Shares.{simple_weight, distribute_days_among_cities}
use goveling_ml.MultiCity.Totals.{values, distribute_days_among_cities_lem}
use goveling_ml.MultiCity.Plan.{range, city_days, optimize_intercity_hybrid_simple}
use goveling_ml.MultiCity.Slices.{join, at_offset-join}
use goveling_ml.MultiCity.Calendar.{
  numbered, days_of, calendar, length-range, positive, schedule_cities-numbered,
}
use goveling_ml.MultiCity.Names.{sequence-IsDistinct, distribution-values}

numbered-values : (k : ℕ) (vs : List (List Poi)) → map (λ e. e.1) (numbered k vs) ≡ vs
numbered-values k [] = refl
numbered-values k (v ∷ vs) = ap (λ e. v ∷ e) (numbered-values (suc k) vs)

numbered-keys :
    (k : ℕ) (vs : List (List Poi)) → map (λ e. e.0) (numbered k vs) ≡ map pos (range k (length vs))
numbered-keys k [] = refl
numbered-keys k (v ∷ vs) = ap (λ e. pos k ∷ e) (numbered-keys (suc k) vs)

join-append : (xs ys : List (List Poi)) → join (xs ++ ys) ≡ join xs ++ join ys
join-append [] ys = refl
join-append (x ∷ xs) ys =
    ap (λ e. x ++ e) (join-append xs ys) ∙ sym (append_assoc x (join xs) (join ys))

abbrev pub pois_of : List City → List Poi
pois_of cs = join (map (λ c. c.pois) cs)

days_of-join : (ps : List Poi) (z : ℤ) → pos 1 ≤ℤ z → join (days_of ps z) ≡ ps
days_of-join ps z h =
    let (n, e) = positive z h in ap (λ y. join (days_of ps y)) e ∙ at_offset-join ps n

days_of-length : (ps : List Poi) (z : ℤ) → pos 1 ≤ℤ z → pos (length (days_of ps z)) ≡ z
days_of-length ps z h =
    let (n, e) = positive z h in
    ap (λ y. pos (length (days_of ps y))) e ∙ ap pos (length-range _ 0 (suc n)) ∙ sym e

calendar-join :
    (d : List (String × ℤ)) (cs : List City)
    → All (λ c. pos 1 ≤ℤ city_days d c) cs
    → join (calendar d cs) ≡ pois_of cs
calendar-join d [] h = refl
calendar-join d (c ∷ cs) h =
    join-append (days_of c.pois (city_days d c)) (calendar d cs)
    ∙ ap (λ e. e ++ join (calendar d cs)) (days_of-join c.pois (city_days d c) h.0)
    ∙ ap (λ e. c.pois ++ e) (calendar-join d cs h.1)

pos_add : (a b c : ℕ) → c ≡ a + b → pos c ≡ pos a +ℤ pos b
pos_add a b c h = ground arith

calendar-length :
    (d : List (String × ℤ)) (cs : List City)
    → All (λ c. pos 1 ≤ℤ city_days d c) cs
    → pos (length (calendar d cs)) ≡ sum_ℤ (map (city_days d) cs)
calendar-length d [] h = refl
calendar-length d (c ∷ cs) h =
    let own = days_of c.pois (city_days d c) in
    pos_add (length own) (length (calendar d cs)) _ (length-append own (calendar d cs))
    ∙ ap (λ z. z +ℤ pos (length (calendar d cs))) (days_of-length c.pois (city_days d c) h.0)
    ∙ ap (λ z. city_days d c +ℤ z) (calendar-length d cs h.1)

-- Every city that is in the dictionary has at least one day, and the others get one.
city_days-positive :
    (d : List (String × ℤ)) (c : City) → All (λ e. pos 1 ≤ℤ e.1) d → pos 1 ≤ℤ city_days d c
city_days-positive [] c h = omega arith
city_days-positive ((k, v) ∷ d) c h =
    both (λ o. pos 1 ≤ℤ or_default o (pos 1)) (str_eq k c.name) h.0 (city_days-positive d c h.1)

positive_everywhere :
    (d : List (String × ℤ)) (cs : List City)
    → All (λ e. pos 1 ≤ℤ e.1) d
    → All (λ c. pos 1 ≤ℤ city_days d c) cs
positive_everywhere d [] h = tt
positive_everywhere d (c ∷ cs) h = (city_days-positive d c h, positive_everywhere d cs h)

visit_from-cons :
    (geodesic : ℤ × ℤ → ℤ × ℤ → ℕ) (n : ℕ) (x : City) (cs : List City)
    → (xs : List City) × (visit_from geodesic n x cs ≡ x ∷ xs)
visit_from-cons geodesic n x [] = ([], refl)
visit_from-cons geodesic zero x (c ∷ cs) = ([], refl)
visit_from-cons geodesic (suc n) x (c ∷ cs) = (_, refl)

module _ (geodesic : ℤ × ℤ → ℤ × ℤ → ℕ) where
  sequence-total :
      (c : City) (cs : List City) (start : Option String) (n : ℕ)
      → sum_ℤ (
          values (
            distribute_days_among_cities simple_weight
              (find_optimal_city_sequence geodesic (c ∷ cs) start)
              n))
        ≡ pos n
  unfolding find_optimal_city_sequence
  sequence-total c [] start n = (distribute_days_among_cities_lem simple_weight c [] n).0
  sequence-total c (d ∷ cs) start n =
      let x = first_stop start c (d ∷ cs) in
      let (xs, e) = visit_from-cons geodesic _ x (others x (c ∷ d ∷ cs)) in
      ap (λ s. sum_ℤ (values (distribute_days_among_cities simple_weight s n))) e
      ∙ (distribute_days_among_cities_lem simple_weight x xs n).0

  -- A trip through cities with different names, with at least one day for each city: the itinerary
  -- visits every city once, its days are 1, 2, ... up to the last day of the trip, and together
  -- they hold all places of the cities in the order of the visits, each once.
  pub optimize_intercity_hybrid_simple_lem :
      (c : City) (cs : List City) (start : Option String) (n : ℕ)
      → IsDistinct (c ∷ cs)
      → All
          (λ e. pos 1 ≤ℤ e.1)
          (distribute_days_among_cities simple_weight
            (find_optimal_city_sequence geodesic (c ∷ cs) start)
            n)
      → let trip = optimize_intercity_hybrid_simple geodesic (c ∷ cs) n start in
        Perm trip.cities (c ∷ cs)
        × (join (map (λ e. e.1) trip.daily_schedules) ≡ pois_of trip.cities)
        × (map (λ e. e.0) trip.daily_schedules ≡ map pos (range 1 n))
  unfolding optimize_intercity_hybrid_simple
  optimize_intercity_hybrid_simple_lem c cs start n distinct enough =
      let s = find_optimal_city_sequence geodesic (c ∷ cs) start in
      let d = distribute_days_among_cities simple_weight s n in
      let all = positive_everywhere d s enough in
      let days = schedule_cities-numbered d s 1 [] (omega arith) all in
      let count : length (calendar d s) ≡ n = ap pos_part (
        calendar-length d s all
        ∙ ap sum_ℤ (
            distribution-values simple_weight s n
              (sequence-IsDistinct geodesic (c ∷ cs) start distinct))
        ∙ sequence-total c cs start n) in
      (
        (find_optimal_city_sequence-IsGreedy geodesic (c ∷ cs) start distinct).0,
        ap (λ e. join (map (λ f. f.1) e)) days
            ∙ ap join (numbered-values 1 (calendar d s))
            ∙ calendar-join d s all,
        ap (map (λ f. f.0)) days
            ∙ numbered-keys 1 (calendar d s)
            ∙ ap (λ k. map pos (range 1 k)) count,
      )
