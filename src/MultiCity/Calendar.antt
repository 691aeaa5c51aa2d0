-- ===== src/MultiCity/Calendar.antt =====
-- The calendar of a whole trip: what `_optimize_intercity_hybrid_simple` of
-- services/multi_city_optimizer_simple.py puts on which day.
use goveling_ml.Prelude.{
  ℕ, zero, suc, ◌+◌, ◌≡◌, refl, sym, ap, ◌∙◌, false, List, [], ◌∷◌, ◌++◌, map, arith, length,
  length-append, All,
}
use mathlib.Core.Path.{subst}
use mathlib.Core.List.{append_assoc}
use Prim.Native.String.{String}
use goveling_ml.Prelude.Int.{ℤ, pos, negsuc, ◌+ℤ◌, ◌≤ℤ◌, eqb_ℤ, pos_part}
use goveling_ml.Prelude.Table.{set}
use goveling_ml.MultiCity.{Poi, City}
use goveling_ml.MultiCity.Plan.{
  range, place_days, city_days, schedule_cities, simple_daily_distribution,
}
use goveling_ml.MultiCity.Slices.{append_nil, at_offset}

-- The days k, k + 1, ... with what they hold.
abbrev pub numbered : ℕ → List (List Poi) → List (ℤ × List Poi)
numbered k [] = []
numbered k (v ∷ vs) = (pos k, v) ∷ numbered (suc k) vs

set-numbered :
    (k c : ℕ) (v : List Poi) (vs : List (List Poi))
    → c ≡ k + length vs
    → set eqb_ℤ (pos c) v (numbered k vs) ≡ numbered k (vs ++ v ∷ [])
set-numbered k c v [] h = ap (λ i. (pos i, v) ∷ []) (omega arith)
set-numbered k c v (w ∷ vs) h =
    let differs : eqb_ℤ (pos k) (pos c) ≡ false = ground arith in
    rw differs (ap (λ d. (pos k, w) ∷ d) (set-numbered (suc k) c v vs (omega arith)))

pos_add : (a b : ℕ) → pos a +ℤ pos b ≡ pos (a + b)
pos_add a b = ground arith

place_days-numbered :
    (c first n : ℕ) (s : List (ℕ × List Poi)) (vs : List (List Poi))
    → c + first ≡ 1 + length vs
    → place_days (pos c) (range first n) s (numbered 1 vs)
      ≡ numbered 1 (vs ++ map (at_offset s) (range first n))
place_days-numbered c first zero s vs h = ap (numbered 1) (sym (append_nil vs))
place_days-numbered c first (suc n) s vs h =
    let v = at_offset s first in
    let later = range (suc first) n in
    ap (λ z. place_days (pos c) later s (set eqb_ℤ z v (numbered 1 vs))) (pos_add c first)
    ∙ ap (place_days (pos c) later s) (set-numbered 1 (c + first) v vs h)
    ∙ place_days-numbered c (suc first) n s (vs ++ v ∷ [])
        (omega (arith, h, length-append vs (v ∷ [])))
    ∙ ap (numbered 1) (append_assoc vs (v ∷ []) (map (at_offset s) later))

-- The days of a city, and of several cities one after the other.
abbrev pub days_of : List Poi → ℤ → List (List Poi)
days_of ps n = map (at_offset (simple_daily_distribution ps n)) (range 0 (pos_part n))

abbrev pub calendar : List (String × ℤ) → List City → List (List Poi)
calendar d [] = []
calendar d (c ∷ cs) = days_of c.pois (city_days d c) ++ calendar d cs

pub length-range : {A : Type 0} (f : ℕ → A) (first n : ℕ) → length (map f (range first n)) ≡ n
length-range f first zero = refl
length-range f first (suc n) = ap suc (length-range f (suc first) n)

pub positive : (z : ℤ) → pos 1 ≤ℤ z → (n : ℕ) × (z ≡ pos (suc n))
positive (pos zero) h = absurd (omega arith)
positive (pos (suc n)) h = (n, refl)
positive (negsuc n) h = absurd (omega arith)

-- What `schedule_cities` goes on with after a city of z days.
abbrev cities_with :
    List (String × ℤ) → List City → List Poi → ℕ → List (List Poi) → ℤ → List (ℤ × List Poi)
cities_with d cs ps c vs z =
    schedule_cities d cs (pos c +ℤ z)
      (place_days (pos c) (range 0 (pos_part z)) (simple_daily_distribution ps z) (numbered 1 vs))

calendar_step :
    (d : List (String × ℤ)) (cs : List City) (ps : List Poi) (c : ℕ) (vs : List (List Poi)) (n : ℕ)
    → c ≡ 1 + length vs
    → schedule_cities d cs (pos (c + n)) (numbered 1 (vs ++ days_of ps (pos n)))
      ≡ numbered 1 ((vs ++ days_of ps (pos n)) ++ calendar d cs)
    → cities_with d cs ps c vs (pos n) ≡ numbered 1 (vs ++ (days_of ps (pos n) ++ calendar d cs))
calendar_step d cs ps c vs n h later =
    let s = simple_daily_distribution ps (pos n) in
    ap (λ z. schedule_cities d cs z (place_days (pos c) (range 0 n) s (numbered 1 vs)))
      (pos_add c n)
    ∙ ap (schedule_cities d cs (pos (c + n))) (place_days-numbered c 0 n s vs (omega arith))
    ∙ later
    ∙ ap (numbered 1) (append_assoc vs (days_of ps (pos n)) (calendar d cs))

pub schedule_cities-numbered :
    (d : List (String × ℤ)) (cs : List City) (c : ℕ) (vs : List (List Poi))
    → c ≡ 1 + length vs
    → All (λ x. pos 1 ≤ℤ city_days d x) cs
    → schedule_cities d cs (pos c) (numbered 1 vs) ≡ numbered 1 (vs ++ calendar d cs)
schedule_cities-numbered d [] c vs h all = ap (numbered 1) (sym (append_nil vs))
schedule_cities-numbered d (x ∷ cs) c vs h all =
    let (n, e) = positive (city_days d x) all.0 in
    let s = simple_daily_distribution x.pois (pos (suc n)) in
    let here = map (at_offset s) (range 0 (suc n)) in
    let step = calendar_step d cs x.pois c vs (suc n) h (
      schedule_cities-numbered d cs (c + suc n) (vs ++ here)
        (omega (arith, h, length-append vs here, length-range (at_offset s) 0 (suc n))) all.1) in
    subst
      (λ z. cities_with d cs x.pois c vs z ≡ numbered 1 (vs ++ (days_of x.pois z ++ calendar d cs)))
      (sym e) step
