-- ===== src/DistanceCache/Shape.antt =====
-- The shape of the matrices of services/ortools_distance_cache.py, and that there always is one.
use goveling_ml.Prelude.{
  length-update_at, length-repeat, update_at, repeat, ℕ, zero, suc, ◌+◌, ◌≡◌, refl, ap, ◌∙◌, inl,
  inr, true, ◌&&◌, List, [], ◌∷◌, ltb, ◌==◌, length, All, Bool-cases,
}
use goveling_ml.Prelude.Exceptions.{Result, ok, err}
use goveling_ml.DistanceCache.Matrix.{
  Place, Matrix, Env, Preference, Source, Task, cell, matrix_row, matrix_rows, or_else, set_cell,
  store_result, fill_matrix, tasks_from, osrm_or_geodesic, calculate_geodesic_matrix,
  calculate_osrm_sequential, calculate_osrm_parallel, calculate_osrm_matrix, resolve, by_preference,
  with_source, calculate_distance_matrix,
}

abbrev pub Rows : ℕ → Matrix → Type 0
Rows n m = All (λ row. length row ≡ n) m

abbrev pub IsSquare : ℕ → Matrix → Type 0
IsSquare n m = (length m ≡ n) × Rows n m

abbrev pub Succeeds : (ℕ → ℕ → Place → Place → Result ℕ) → Type 0
Succeeds distance = (i j : ℕ) (p q : Place) → (d : ℕ) × (distance i j p q ≡ ok d)

module _ (distance : ℕ → ℕ → Place → Place → Result ℕ) (total : Succeeds distance) where
  cell-total : (i j : ℕ) (p q : Place) → (d : ℕ) × (cell distance i j p q ≡ ok d)
  cell-total i j p q = elim (Bool-cases (i == j)) [
    | inl same ↦ rw same (0, refl)
    | inr apart ↦ rw apart (total i j p q)
  ]

  matrix_row-total :
      (i j : ℕ) (p : Place) (qs : List Place)
      → (row : List ℕ) × (matrix_row distance i j p qs ≡ ok row) × (length row ≡ length qs)
  unfolding matrix_row
  matrix_row-total i j p [] = ([], refl, refl)
  matrix_row-total i j p (q ∷ qs) =
      let (d, e) = cell-total i j p q in
      let (ds, f, n) = matrix_row-total i (j + 1) p qs in (d ∷ ds, rw (e, f) refl, ap suc n)

  matrix_rows-total :
      (places : List Place) (i : ℕ) (ps : List Place)
      → (m : Matrix) × (matrix_rows distance places i ps ≡ ok m)
        × (length m ≡ length ps)
        × Rows (length places) m
  unfolding matrix_rows
  matrix_rows-total places i [] = ([], refl, refl, tt)
  matrix_rows-total places i (p ∷ ps) =
      let (row, e, n) = matrix_row-total i 0 p places in
      let (rows, f, k, h) = matrix_rows-total places (i + 1) ps in
      (row ∷ rows, rw (e, f) refl, ap suc k, (n, h))

pub set_cell-Rows : (n i j d : ℕ) (m : Matrix) → Rows n m → Rows n (set_cell i j d m)
set_cell-Rows n i j d [] h = tt
set_cell-Rows n zero j d (row ∷ m) h = (length-update_at j (λ _. d) row ∙ h.0, h.1)
set_cell-Rows n (suc i) j d (row ∷ m) h = (h.0, set_cell-Rows n i j d m h.1)

pub store_result-IsSquare :
    (n i j : ℕ) (r : Result ℕ) (m : Matrix) → IsSquare n m → IsSquare n (store_result i j r m)
store_result-IsSquare n i j (err e) m h = h
store_result-IsSquare n i j (ok d) m h = (
  length-update_at j (update_at i (λ _. d)) (set_cell i j d m)
      ∙ length-update_at i (update_at j (λ _. d)) m
      ∙ h.0,
  set_cell-Rows n j i d (set_cell i j d m) (set_cell-Rows n i j d m h.1),
)

fill_matrix-IsSquare :
    (n : ℕ) (ts : List Task) (m : Matrix) → IsSquare n m → IsSquare n (fill_matrix ts m)
unfolding fill_matrix
fill_matrix-IsSquare n [] m h = h
fill_matrix-IsSquare n (t ∷ ts) m h =
    fill_matrix-IsSquare n ts (store_result t.row t.column t.outcome m)
      (store_result-IsSquare n t.row t.column t.outcome m h)

pub repeat-Rows : (k n : ℕ) → Rows n (repeat k (repeat n 0))
repeat-Rows zero n = tt
repeat-Rows (suc k) n = (length-repeat n 0, repeat-Rows k n)

-- A result with a square matrix.
abbrev pub IsDone : {A : Type 0} → ℕ → (A → Matrix) → Result A → Type 0
IsDone {A = A} n f r = (a : A) × (r ≡ ok a) × IsSquare n (f a)

rows-IsDone :
    (distance : ℕ → ℕ → Place → Place → Result ℕ) (places : List Place)
    → Succeeds distance
    → IsDone (length places) (λ m. m) (matrix_rows distance places 0 places)
rows-IsDone distance places total =
    let (m, e, n, h) = matrix_rows-total distance total places 0 places in (m, e, (n, h))

with_source-IsDone :
    (n : ℕ) (s : Source) (r : Result Matrix)
    → IsDone n (λ m. m) r
    → IsDone n (λ x. x.0) (with_source s r)
with_source-IsDone n s r (a, e, h) = ((a, s), rw e refl, h)

or_else-total :
    {A : Type 0} (r other : Result A)
    → (a : A) × (other ≡ ok a)
    → (a : A) × (or_else r other ≡ ok a)
or_else-total (ok a) other o = (a, refl)
or_else-total (err e) other o = o

module _ (env : Env) (geodesic-total : (p q : Place) → (d : ℕ) × (env.geodesic p q ≡ ok d))
    (places : List Place) where
  geodesic-IsDone :
      (s : Source)
      → IsDone (length places) (λ x. x.0) (with_source s (calculate_geodesic_matrix env places))
  unfolding calculate_geodesic_matrix
  geodesic-IsDone s =
      with_source-IsDone (length places) s _
        (rows-IsDone (λ i j p q. env.geodesic p q) places (λ i j p q. geodesic-total p q))

  parallel-IsSquare : IsSquare (length places) (calculate_osrm_parallel env places)
  unfolding calculate_osrm_parallel
  parallel-IsSquare =
      let n = length places in
      fill_matrix-IsSquare n (tasks_from env 0 places) (repeat n (repeat n 0))
        (length-repeat n (repeat n 0), repeat-Rows n n)

  sequential-IsDone : IsDone (length places) (λ m. m) (calculate_osrm_sequential env places)
  unfolding calculate_osrm_sequential osrm_or_geodesic
  sequential-IsDone =
      rows-IsDone (osrm_or_geodesic env) places
        (λ i j p q. or_else-total _ (env.geodesic p q) (geodesic-total p q))

  osrm-IsDone :
      env.has_osrm ≡ true → IsDone (length places) (λ m. m) (calculate_osrm_matrix env places)
  unfolding calculate_osrm_matrix
  osrm-IsDone has = elim (Bool-cases (ltb 10 (length places) && env.enable_parallel)) [
    | inl parallel ↦
        simp (has, parallel) (calculate_osrm_parallel env places, refl, parallel-IsSquare)
    | inr sequential ↦ simp (has, sequential) sequential-IsDone
  ]

  geodesic_twice-IsDone :
      IsDone
        (length places)
        (λ x. x.0)
        (or_else
          (with_source Source.geodesic (calculate_geodesic_matrix env places))
          (with_source Source.geodesic_fallback (calculate_geodesic_matrix env places)))
  geodesic_twice-IsDone = let (x, e, h) = geodesic-IsDone Source.geodesic in rw e (x, refl, h)

  by_preference-IsDone :
      (p : Preference) → IsDone (length places) (λ x. x.0) (by_preference env places p)
  by_preference-IsDone Preference.auto = geodesic_twice-IsDone
  by_preference-IsDone Preference.other = geodesic_twice-IsDone
  by_preference-IsDone Preference.geodesic = geodesic-IsDone Source.geodesic
  by_preference-IsDone Preference.osrm = elim (Bool-cases env.has_osrm) [
    | inl has ↦
        (let (x, e, h) =
            with_source-IsDone (length places) Source.osrm (calculate_osrm_matrix env places)
              (osrm-IsDone has) in
          simp (has, e) (x, refl, h))
    | inr missing ↦ simp missing geodesic_twice-IsDone
  ]

  -- If the geodesic distance never raises, every request for a matrix ends with one, whatever the
  -- preference and however OSRM fails: it has a row for each place and a column for each place.
  pub calculate_distance_matrix-IsDone :
      (preference : Preference)
      → IsDone (length places) (λ x. x.0) (calculate_distance_matrix env places preference)
  unfolding calculate_distance_matrix
  calculate_distance_matrix-IsDone preference =
      by_preference-IsDone (resolve env (length places) preference)
