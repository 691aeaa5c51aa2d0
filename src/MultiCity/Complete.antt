-- ===== src/MultiCity/Complete.antt =====
-- That an itinerary of services/multi_city_optimizer_simple.py leaves no place out.
use Prim.Native.String.{String}
use mathlib.Core.Path.{subst, subst₂}
use mathlib.Core.Logic.{∥∥₁_elim}
use mathlib.Core.List.{Perm, Permᴰ, Perm-prop, perm_middle}
use mathlib.Core.List.Perm
use goveling_ml.Prelude.{ℕ, suc, ◌≡◌, refl, sym, Option, List, [], ◌∷◌, ◌++◌, map, All}
use goveling_ml.Prelude.Int.{ℤ, pos, ◌≤ℤ◌}
use goveling_ml.Prelude.Exceptions.{ok}
use goveling_ml.MultiCity.{Poi, City}
use goveling_ml.MultiCity.Sequence.{find_optimal_city_sequence}
use goveling_ml.MultiCity.Tour.{IsDistinct}
use goveling_ml.MultiCity.Shares.{simple_weight, distribute_days_among_cities}
use goveling_ml.MultiCity.Plan.{simple_daily_distribution, optimize_intercity_hybrid_simple}
use goveling_ml.MultiCity.Slices.{join, simple_daily_distribution-join}
use goveling_ml.MultiCity.Trip.{pois_of, optimize_intercity_hybrid_simple_lem}
use goveling_ml.MultiCity.Strategy.{
  OptimizationStrategy, single_city_ortools, intercity_hybrid, multi_country_complex,
  custom_eurotrip, OptimizationConfig, determine_strategy_simple,
}
use goveling_ml.MultiCity.Itinerary.{
  Outcome, one_city, several, optimize_single_city_simple, by_strategy,
  optimize_multi_city_itinerary,
}

exchange : (xs ys zs : List Poi) → Perm (xs ++ (ys ++ zs)) (ys ++ (xs ++ zs))
exchange [] ys zs = Perm.refl (ys ++ zs)
exchange (x ∷ xs) ys zs =
    Perm.trans (Perm.cons x (exchange xs ys zs)) (Perm.symm (perm_middle ys (xs ++ zs)))

pois_of-permᴰ : {cs ds : List City} → Permᴰ cs ds → Perm (pois_of cs) (pois_of ds)
pois_of-permᴰ Permᴰ.nil = Perm.refl []
pois_of-permᴰ (Permᴰ.cons {a = a} {b = b} {l₁ = l₁} e d) =
    Perm.append (same_pois a b e) (pois_of-permᴰ d)
  where
    same_pois : (x y : City) → x ≡ y → Perm x.pois y.pois
    same_pois x y p = subst (λ z. Perm x.pois z.pois) p (Perm.refl x.pois)
pois_of-permᴰ (Permᴰ.swap {a = a} {b = b} {a' = a'} {b' = b'} {l = l} e₁ e₂) =
    subst₂ (λ x y. Perm (a.pois ++ (b.pois ++ pois_of l)) (x.pois ++ (y.pois ++ pois_of l))) e₂ e₁
      (exchange a.pois b.pois (pois_of l))
pois_of-permᴰ (Permᴰ.trans d₁ d₂) = Perm.trans (pois_of-permᴰ d₁) (pois_of-permᴰ d₂)

pois_of-perm : (cs ds : List City) → Perm cs ds → Perm (pois_of cs) (pois_of ds)
pois_of-perm cs ds p = ∥∥₁_elim p Perm-prop pois_of-permᴰ

-- The places on all days of an itinerary.
abbrev pub scheduled : Outcome → List Poi
scheduled (one_city s) = join (map (λ e. e.1) s)
scheduled (several t) = join (map (λ e. e.1) t.daily_schedules)

module _ (geodesic : ℤ × ℤ → ℤ × ℤ → ℕ) where
  several-perm :
      (cities : List City) (start : Option String) (n : ℕ)
      → IsDistinct cities
      → All
          (λ e. pos 1 ≤ℤ e.1)
          (distribute_days_among_cities simple_weight
            (find_optimal_city_sequence geodesic cities start)
            n)
      → Perm
          (scheduled (several (optimize_intercity_hybrid_simple geodesic cities n start)))
          (pois_of cities)
  unfolding optimize_intercity_hybrid_simple find_optimal_city_sequence distribute_days_among_cities
  several-perm [] start n distinct enough = Perm.refl []
  several-perm (c ∷ cs) start n distinct enough =
      let (perm, places, keys) =
        optimize_intercity_hybrid_simple_lem geodesic c cs start n distinct enough in
      subst (λ z. Perm z (pois_of (c ∷ cs))) (sym places) (pois_of-perm _ (c ∷ cs) perm)

  -- If the clustering puts every place into one city and the cities have different names, and the
  -- distribution gives every city at least one day, then a trip with places and days gets an
  -- itinerary, and the places on its days are exactly the places asked for, each once.
  pub optimize_multi_city_itinerary-perm :
      (cluster : List Poi → List City) (config : OptimizationConfig) (p : Poi) (ps : List Poi)
      (n : ℕ) (start : Option String)
      → Perm (pois_of (cluster (p ∷ ps))) (p ∷ ps)
      → IsDistinct (cluster (p ∷ ps))
      → All
          (λ e. pos 1 ≤ℤ e.1)
          (distribute_days_among_cities simple_weight
            (find_optimal_city_sequence geodesic (cluster (p ∷ ps)) start)
            (suc n))
      → (o : Outcome) × (optimize_multi_city_itinerary geodesic cluster config
            (p ∷ ps)
            (suc n)
            start
          ≡ ok o)
        × Perm (scheduled o) (p ∷ ps)
  unfolding optimize_multi_city_itinerary optimize_single_city_simple
  optimize_multi_city_itinerary-perm cluster config p ps n start whole distinct enough =
      of_strategy (determine_strategy_simple geodesic config (cluster (p ∷ ps)))
    where
      trip :
          Perm
            (scheduled (
              several (optimize_intercity_hybrid_simple geodesic (cluster (p ∷ ps)) (suc n) start)))
            (p ∷ ps)
      trip = Perm.trans (several-perm (cluster (p ∷ ps)) start (suc n) distinct enough) whole

      of_strategy :
          (s : OptimizationStrategy)
          → (o : Outcome) × (by_strategy geodesic cluster s (p ∷ ps) (suc n) start ≡ ok o)
            × Perm (scheduled o) (p ∷ ps)
      of_strategy single_city_ortools = (
        one_city (simple_daily_distribution (p ∷ ps) (pos (suc n))),
        refl,
        subst (λ z. Perm z (p ∷ ps)) (sym (simple_daily_distribution-join (p ∷ ps) n))
            (Perm.refl (p ∷ ps)),
      )
      of_strategy intercity_hybrid = (_, refl, trip)
      of_strategy multi_country_complex = (_, refl, trip)
      of_strategy custom_eurotrip = (_, refl, trip)
