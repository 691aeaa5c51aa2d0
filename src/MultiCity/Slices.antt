-- ===== src/MultiCity/Slices.antt =====
-- The places of one city, day by day (`_simple_daily_distribution` of
-- services/multi_city_optimizer_simple.py).
use goveling_ml.Prelude.{
  ℕ, zero, suc, ◌+◌, ◌-◌, ◌*◌, ◌≤◌, ◌<◌, ◌≡◌, refl, sym, ap, ◌∙◌, inl, inr, true, false, some, List,
  [], ◌∷◌, ◌++◌, map, ltb, ◌==◌, arith, length, take, drop, length-drop, Bool-cases,
}
use goveling_ml.Prelude.Int.{pos}
use goveling_ml.Prelude.Table.{lookup}
use goveling_ml.Schedule.Windows.{or_default}
use goveling_ml.MultiCity.{Poi}
use goveling_ml.MultiCity.Plan.{range, day_pois, per_day_of, simple_daily_distribution}

module _ {ℓ} {A : Type ℓ} where
  abbrev pub join : List (List A) → List A
  join [] = []
  join (xs ∷ xss) = xs ++ join xss

  pub append_nil : (xs : List A) → xs ++ [] ≡ xs
  append_nil [] = refl
  append_nil (x ∷ xs) = ap (λ ys. x ∷ ys) (append_nil xs)

  take-drop : (n : ℕ) (xs : List A) → take n xs ++ drop n xs ≡ xs
  take-drop zero xs = refl
  take-drop (suc n) [] = refl
  take-drop (suc n) (x ∷ xs) = ap (λ ys. x ∷ ys) (take-drop n xs)

  drop_nil : (n : ℕ) → Path (List A) (drop n []) []
  drop_nil zero = refl
  drop_nil (suc n) = refl

  at_number : (m n : ℕ) (xs : List A) → m ≡ n → drop m xs ≡ drop n xs
  at_number m n xs same = ap (λ k. drop k xs) same

  drop-drop : (m n : ℕ) (xs : List A) → drop n (drop m xs) ≡ drop (m + n) xs
  drop-drop zero n xs = at_number n (0 + n) xs (omega arith)
  drop-drop (suc m) n [] = drop_nil n ∙ sym (drop_nil (suc m + n))
  drop-drop (suc m) n (x ∷ xs) =
      drop-drop m n xs ∙ at_number (suc (m + n)) (suc m + n) (x ∷ xs) (omega arith)

  take-all : (n : ℕ) (xs : List A) → length xs ≤ n → take n xs ≡ xs
  take-all zero [] h = refl
  take-all zero (x ∷ xs) h = absurd (omega arith)
  take-all (suc n) [] h = refl
  take-all (suc n) (x ∷ xs) h = ap (λ ys. x ∷ ys) (take-all n xs (omega arith))

-- A day before the last, and the last day.
day_pois-early :
    (ps : List Poi) (days per k : ℕ)
    → suc k < days
    → day_pois ps days per (suc k) ≡ take per (drop (k * per) ps)
day_pois-early ps days per k h =
    let early : ltb (suc k) days ≡ true = ground arith in
    let count : k * per + per - k * per ≡ per = omega arith in
    let start : suc k - 1 ≡ k = omega arith in
    rw (early, start) (ap (λ n. take n (drop (k * per) ps)) count)

day_pois-last : (ps : List Poi) (per k : ℕ) → day_pois ps (suc k) per (suc k) ≡ drop (k * per) ps
day_pois-last ps per k =
    let late : ltb (suc k) (suc k) ≡ false = ground arith in
    let start : suc k - 1 ≡ k = omega arith in
    rw (late, start)
      (take-all (length ps - k * per) (drop (k * per) ps) (omega (arith, length-drop (k * per) ps)))

day_pois-join :
    (ps : List Poi) (days per k n : ℕ)
    → k + suc n ≡ days
    → join (map (day_pois ps days per) (range (suc k) (suc n))) ≡ drop (k * per) ps
day_pois-join ps days per k zero h =
    let last : days ≡ suc k = omega arith in
    append_nil (day_pois ps days per (suc k)) ∙ rw last (day_pois-last ps per k)
day_pois-join ps days per k (suc n) h =
    let rest = day_pois-join ps days per (suc k) n (omega arith) in
    let next : suc k * per ≡ k * per + per = grind arith in
    rw (day_pois-early ps days per k (omega arith), rest, next)
      (rw (← drop-drop (k * per) per ps) (take-drop per (drop (k * per) ps)))

map-days :
    (f : ℕ → List Poi) (ds : List ℕ)
    → map (λ (e : ℕ × List Poi). e.1) (map (λ day. (day, f day)) ds) ≡ map f ds
map-days f [] = refl
map-days f (d ∷ ds) = ap (λ ys. f d ∷ ys) (map-days f ds)

-- With at least one day, the days of a city together hold its places, in their order, each once.
pub simple_daily_distribution-join :
    (ps : List Poi) (n : ℕ)
    → join (map (λ e. e.1) (simple_daily_distribution ps (pos (suc n)))) ≡ ps
unfolding simple_daily_distribution
simple_daily_distribution-join [] n = refl
simple_daily_distribution-join (p ∷ ps) n =
    let per = per_day_of (p ∷ ps) (suc n) in
    ap join (map-days (day_pois (p ∷ ps) (suc n) per) (range 1 (suc n)))
    ∙ day_pois-join (p ∷ ps) (suc n) per 0 n (omega arith)
    ∙ at_number (0 * per) 0 (p ∷ ps) (omega arith)

-- What the day at a number holds.
lookup-range :
    (f : ℕ → List Poi) (first k n : ℕ)
    → first ≤ k
    → k < first + n
    → lookup (λ i j. i == j) k (map (λ day. (day, f day)) (range first n)) ≡ some (f k)
lookup-range f first k zero h lt = absurd (omega arith)
lookup-range f first k (suc n) h lt = elim (Bool-cases (first == k)) [
  | inl same ↦ rw same (ap (λ i. some (f i)) (ground arith))
  | inr other ↦ rw other (lookup-range f (suc first) k n (ground arith) (omega arith))
]

-- `city_schedule.get(day_offset + 1, [])`
abbrev pub at_offset : List (ℕ × List Poi) → ℕ → List Poi
at_offset city_schedule o = or_default (lookup (λ i j. i == j) (o + 1) city_schedule) []

at_offset-map :
    (f : ℕ → List Poi) (n first m : ℕ)
    → first + m ≤ n
    → map (at_offset (map (λ day. (day, f day)) (range 1 n))) (range first m)
      ≡ map f (range (suc first) m)
at_offset-map f n first zero h = refl
at_offset-map f n first (suc m) h =
    let here = lookup-range f 1 (first + 1) n (omega arith) (omega arith) in
    let next : first + 1 ≡ suc first = omega arith in
    rw (here, at_offset-map f n (suc first) m (omega arith))
      (ap (λ k. f k ∷ map f (range (suc (suc first)) m)) next)

at_offset-empty : (ds : List ℕ) → join (map (at_offset []) ds) ≡ []
at_offset-empty [] = refl
at_offset-empty (d ∷ ds) = at_offset-empty ds

pub at_offset-join :
    (ps : List Poi) (n : ℕ)
    → join (map (at_offset (simple_daily_distribution ps (pos (suc n)))) (range 0 (suc n))) ≡ ps
unfolding simple_daily_distribution
at_offset-join [] n = at_offset-empty (range 0 (suc n))
at_offset-join (p ∷ ps) n =
    let f = day_pois (p ∷ ps) (suc n) (per_day_of (p ∷ ps) (suc n)) in
    ap join (at_offset-map f (suc n) 0 (suc n) (omega arith))
    ∙ sym (ap join (map-days f (range 1 (suc n))))
    ∙ simple_daily_distribution-join (p ∷ ps) n
