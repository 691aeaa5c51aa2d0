-- ===== src/DistanceCache/Symmetry.antt =====
-- The matrix that `_calculate_osrm_parallel` fills from the tasks of its upper triangle
-- (services/ortools_distance_cache.py).
use goveling_ml.Prelude.{
  ℕ, zero, suc, ◌+◌, ◌<◌, ◌≡◌, refl, ap, sym, ◌∙◌, inl, inr, ◌&&◌, List, [], ◌∷◌, ◌++◌, ltb, ◌==◌,
  arith, if◌then◌else◌, length, get_or, update_at, length-update_at, repeat, length-repeat, All,
  Bool-cases,
}
use goveling_ml.Prelude.Exceptions.{Result, ok, err}
use goveling_ml.DistanceCache.Matrix.{
  Place, Matrix, Env, Task, set_cell, store_result, fill_matrix, tasks_of_row, tasks_from,
  calculate_osrm_parallel,
}
use goveling_ml.DistanceCache.Shape.{
  Rows, IsSquare, set_cell-Rows, store_result-IsSquare, repeat-Rows,
}

-- `matrix[i][j]`, and 0 outside.
abbrev pub entry_at : Matrix → ℕ → ℕ → ℕ
entry_at m i j = get_or (get_or m i []) j 0

get_or-update_at :
    {A : Type 0} (i k : ℕ) (f : A → A) (xs : List A) (d : A)
    → get_or (update_at i f xs) k d
      ≡ (if k == i && ltb i (length xs) then f (get_or xs k d) else get_or xs k d)
get_or-update_at i k f [] d = ground arith
get_or-update_at zero zero f (x ∷ xs) d = ground arith
get_or-update_at zero (suc k) f (x ∷ xs) d = ground arith
get_or-update_at (suc i) zero f (x ∷ xs) d = ground arith
get_or-update_at (suc i) (suc k) f (x ∷ xs) d = ground (arith, get_or-update_at i k f xs d)

length-row : (n k : ℕ) (m : Matrix) → Rows n m → k < length m → length (get_or m k []) ≡ n
length-row n k [] h lt = absurd (omega arith)
length-row n zero (row ∷ m) h lt = h.0
length-row n (suc k) (row ∷ m) h lt = length-row n k m h.1 (omega arith)

entry_at-set_cell :
    (n i j d : ℕ) (m : Matrix) (k l : ℕ)
    → IsSquare n m
    → entry_at (set_cell i j d m) k l
      ≡ (if (k == i && ltb i n) && (l == j && ltb j n) then d else entry_at m k l)
entry_at-set_cell n i j d m k l (size, rows) = elim (Bool-cases (k == i && ltb i n)) [
  | inl here ↦
      (let row = get_or m k [] in
        let wide : length row ≡ n = length-row n k m rows (ground (arith, here, size)) in
        rw
          (
            get_or-update_at i k (update_at j (λ _. d)) m [],
            size,
            here,
            get_or-update_at j l (λ _. d) row 0,
            wide,
          )
          refl)
  | inr there ↦ rw (get_or-update_at i k (update_at j (λ _. d)) m [], size, there) refl
]

-- The same in both directions, and 0 on the diagonal.
abbrev pub IsMetric : Matrix → Type 0
IsMetric m = ((k l : ℕ) → entry_at m k l ≡ entry_at m l k) × ((k : ℕ) → entry_at m k k ≡ 0)

entry_at-stored :
    (n i j d : ℕ) (m : Matrix) (k l : ℕ)
    → IsSquare n m
    → entry_at (set_cell j i d (set_cell i j d m)) k l ≡ (
        if (k == j && ltb j n) && (l == i && ltb i n)
        then d
        else if (k == i && ltb i n) && (l == j && ltb j n)
        then d
        else entry_at m k l)
entry_at-stored n i j d m k l (size, rows) =
    let square : IsSquare n (set_cell i j d m) =
      (length-update_at i (update_at j (λ _. d)) m ∙ size, set_cell-Rows n i j d m rows) in
    entry_at-set_cell n j i d (set_cell i j d m) k l square
    ∙ ap (λ x. if (k == j && ltb j n) && (l == i && ltb i n) then d else x)
        (entry_at-set_cell n i j d m k l (size, rows))

store_result-IsMetric :
    (n i j : ℕ) (r : Result ℕ) (m : Matrix)
    → IsSquare n m
    → i < j
    → IsMetric m
    → IsMetric (store_result i j r m)
store_result-IsMetric n i j (err e) m square lt h = h
store_result-IsMetric n i j (ok d) m square lt (same, zeros) = (
  λ k l.
      rw (entry_at-stored n i j d m k l square, entry_at-stored n i j d m l k square)
        (ground (arith, same k l)),
  λ k. rw (entry_at-stored n i j d m k k square) (ground (arith, zeros k)),
)

abbrev IsUpper : Task → Type 0
IsUpper t = t.row < t.column

fill_matrix-IsMetric :
    (n : ℕ) (ts : List Task) (m : Matrix)
    → All IsUpper ts
    → IsSquare n m
    → IsMetric m
    → IsMetric (fill_matrix ts m)
unfolding fill_matrix
fill_matrix-IsMetric n [] m u square h = h
fill_matrix-IsMetric n (t ∷ ts) m u square h =
    fill_matrix-IsMetric n ts (store_result t.row t.column t.outcome m) u.1
      (store_result-IsSquare n t.row t.column t.outcome m square)
      (store_result-IsMetric n t.row t.column t.outcome m square u.0 h)

append-All : (ts us : List Task) → All IsUpper ts → All IsUpper us → All IsUpper (ts ++ us)
append-All [] us a b = b
append-All (t ∷ ts) us a b = (a.0, append-All ts us a.1 b)

tasks_of_row-IsUpper :
    (env : Env) (i j : ℕ) (p : Place) (qs : List Place)
    → i < j
    → All IsUpper (tasks_of_row env i j p qs)
unfolding tasks_of_row
tasks_of_row-IsUpper env i j p [] lt = tt
tasks_of_row-IsUpper env i j p (q ∷ qs) lt =
    (lt, tasks_of_row-IsUpper env i (j + 1) p qs (omega (arith, lt)))

tasks_from-IsUpper : (env : Env) (i : ℕ) (ps : List Place) → All IsUpper (tasks_from env i ps)
unfolding tasks_from
tasks_from-IsUpper env i [] = tt
tasks_from-IsUpper env i (p ∷ ps) =
    append-All (tasks_of_row env i (i + 1) p ps) (tasks_from env (i + 1) ps)
      (tasks_of_row-IsUpper env i (i + 1) p ps (omega arith)) (tasks_from-IsUpper env (i + 1) ps)

get_or-repeat : {A : Type 0} (n k : ℕ) (a : A) → get_or (repeat n a) k a ≡ a
get_or-repeat zero k a = refl
get_or-repeat (suc n) zero a = refl
get_or-repeat (suc n) (suc k) a = get_or-repeat n k a

entry_at-repeat : (m n k l : ℕ) → entry_at (repeat m (repeat n 0)) k l ≡ 0
entry_at-repeat zero n k l = refl
entry_at-repeat (suc m) n zero l = get_or-repeat n l 0
entry_at-repeat (suc m) n (suc k) l = entry_at-repeat m n k l

-- Whatever OSRM and the geodesic distance answer or raise, the parallel computation gives a matrix
-- with the same entry in both directions and 0 on the diagonal.
pub calculate_osrm_parallel-IsMetric :
    (env : Env) (places : List Place) → IsMetric (calculate_osrm_parallel env places)
unfolding calculate_osrm_parallel
calculate_osrm_parallel-IsMetric env places =
    let n = length places in
    fill_matrix-IsMetric n (tasks_from env 0 places) (repeat n (repeat n 0))
      (tasks_from-IsUpper env 0 places) (length-repeat n (repeat n 0), repeat-Rows n n)
      (λ k l. entry_at-repeat n n k l ∙ sym (entry_at-repeat n n l k), λ k. entry_at-repeat n n k k)
