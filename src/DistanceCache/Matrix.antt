-- ===== src/DistanceCache/Matrix.antt =====
-- How services/ortools_distance_cache.py computes a matrix. `geodesic` is geopy's distance, and
-- `osrm i j` the answer of `get_distance_km` for the places number i and j of a request, None
-- included; both may raise. The tasks of the parallel computation do not depend on each other, so
-- the semaphore that limits them does not show.
use Prim.Native.String.{String}
use goveling_ml.Prelude.{
  update_at, repeat, ℕ, zero, suc, ◌+◌, Bool, ◌&&◌, not, Option, none, some, List, [], ◌∷◌, ◌++◌,
  ltb, leb, ◌==◌, if◌then◌else◌, length,
}
use goveling_ml.Prelude.Exceptions.{Result, ok, err, other_error}
use goveling_ml.Schedule.Data.{Location}

pub record Place : Type 0 where
  pub location : Location
  pub name : String

abbrev pub Matrix : Type 0
Matrix = List (List ℕ)

-- The services, and what the settings say.
pub record Env : Type 0 where
  pub geodesic : Place → Place → Result ℕ
  pub osrm : ℕ → ℕ → Result (Option ℕ)
  pub has_osrm : Bool
  pub enable_parallel : Bool

pub data Preference : Type 0 where
  auto osrm geodesic other : Preference

pub data Source : Type 0 where
  osrm geodesic geodesic_fallback : Source

abbrev pub after_both {ℓ κ ι} :
    {A : Type ℓ} {B : Type κ} {C : Type ι} → Result A → Result B → (A → B → C) → Result C
after_both (ok a) (ok b) f = ok (f a b)
after_both (ok a) (err e) f = err e
after_both (err e) b f = err e

-- `enumerate` twice, with 0.0 on the diagonal: cell (i, j) is the distance of the places i and j.
module _ (distance : ℕ → ℕ → Place → Place → Result ℕ) where
  abbrev pub cell : ℕ → ℕ → Place → Place → Result ℕ
  cell i j p q = if i == j then ok 0 else distance i j p q

  unfoldable pub matrix_row : ℕ → ℕ → Place → List Place → Result (List ℕ)
  matrix_row i j p [] = ok []
  matrix_row i j p (q ∷ qs) = after_both (cell i j p q) (matrix_row i (j + 1) p qs) (λ d ds. d ∷ ds)

  unfoldable pub matrix_rows : List Place → ℕ → List Place → Result Matrix
  unfolding matrix_row
  matrix_rows places i [] = ok []
  matrix_rows places i (p ∷ ps) =
      after_both (matrix_row i 0 p places) (matrix_rows places (i + 1) ps) (λ row rows. row ∷ rows)

unfoldable pub calculate_geodesic_matrix : Env → List Place → Result Matrix
unfolding matrix_rows
calculate_geodesic_matrix env places = matrix_rows (λ i j p q. env.geodesic p q) places 0 places

abbrev pub valid_distance : Result (Option ℕ) → Result ℕ
valid_distance (err e) = err e
valid_distance (ok none) = err other_error
valid_distance (ok (some zero)) = err other_error
valid_distance (ok (some (suc d))) = ok (suc d)

unfoldable pub get_osrm_distance : Env → ℕ → ℕ → Result ℕ
get_osrm_distance env i j = if env.has_osrm then valid_distance (env.osrm i j) else err other_error

abbrev pub or_else {ℓ} : {A : Type ℓ} → Result A → Result A → Result A
or_else (ok a) r = ok a
or_else (err e) r = r

-- `_get_osrm_distance_with_indices`, and the body of the sequential loop.
unfoldable pub osrm_or_geodesic : Env → ℕ → ℕ → Place → Place → Result ℕ
unfolding get_osrm_distance
osrm_or_geodesic env i j p q = or_else (get_osrm_distance env i j) (env.geodesic p q)

unfoldable pub calculate_osrm_sequential : Env → List Place → Result Matrix
unfolding matrix_rows osrm_or_geodesic
calculate_osrm_sequential env places = matrix_rows (osrm_or_geodesic env) places 0 places

-- The tasks of the upper triangle with their results.
pub record Task : Type 0 where
  pub row : ℕ
  pub column : ℕ
  pub outcome : Result ℕ

unfoldable pub tasks_of_row : Env → ℕ → ℕ → Place → List Place → List Task
unfolding osrm_or_geodesic
tasks_of_row env i j p [] = []
tasks_of_row env i j p (q ∷ qs) =
    record { row = i; column = j; outcome = osrm_or_geodesic env i j p q }
    ∷ tasks_of_row env i (j + 1) p qs

unfoldable pub tasks_from : Env → ℕ → List Place → List Task
unfolding tasks_of_row
tasks_from env i [] = []
tasks_from env i (p ∷ ps) = tasks_of_row env i (i + 1) p ps ++ tasks_from env (i + 1) ps

abbrev pub set_cell : ℕ → ℕ → ℕ → Matrix → Matrix
set_cell i j d m = update_at i (update_at j (λ _. d)) m

abbrev pub store_result : ℕ → ℕ → Result ℕ → Matrix → Matrix
store_result i j (ok d) m = set_cell j i d (set_cell i j d m)
store_result i j (err e) m = m

-- A task that raised leaves its two cells at 0.0.
unfoldable pub fill_matrix : List Task → Matrix → Matrix
fill_matrix [] m = m
fill_matrix (t ∷ ts) m = fill_matrix ts (store_result t.row t.column t.outcome m)

unfoldable pub calculate_osrm_parallel : Env → List Place → Matrix
unfolding tasks_from fill_matrix
calculate_osrm_parallel env places =
    let n = length places in fill_matrix (tasks_from env 0 places) (repeat n (repeat n 0))

unfoldable pub calculate_osrm_matrix : Env → List Place → Result Matrix
unfolding calculate_osrm_sequential calculate_osrm_parallel
calculate_osrm_matrix env places =
    if not env.has_osrm
    then err other_error
    else if ltb 10 (length places) && env.enable_parallel
    then ok (calculate_osrm_parallel env places)
    else calculate_osrm_sequential env places

-- `auto` becomes a source by the number of places.
abbrev pub resolve : Env → ℕ → Preference → Preference
resolve env count Preference.auto =
    if leb count 5
    then Preference.geodesic
    else if env.has_osrm
    then Preference.osrm
    else Preference.geodesic
resolve env count Preference.osrm = Preference.osrm
resolve env count Preference.geodesic = Preference.geodesic
resolve env count Preference.other = Preference.other

abbrev pub with_source {ℓ} : {A : Type ℓ} → Source → Result A → Result (A × Source)
with_source s (ok a) = ok (a, s)
with_source s (err e) = err e

abbrev pub by_preference : Env → List Place → Preference → Result (Matrix × Source)
by_preference env places Preference.osrm =
    if env.has_osrm
    then or_else (with_source Source.osrm (calculate_osrm_matrix env places))
        (with_source Source.geodesic_fallback (calculate_geodesic_matrix env places))
    else or_else (with_source Source.geodesic (calculate_geodesic_matrix env places))
        (with_source Source.geodesic_fallback (calculate_geodesic_matrix env places))
by_preference env places Preference.geodesic =
    with_source Source.geodesic (calculate_geodesic_matrix env places)
by_preference env places Preference.auto =
    or_else (with_source Source.geodesic (calculate_geodesic_matrix env places))
      (with_source Source.geodesic_fallback (calculate_geodesic_matrix env places))
by_preference env places Preference.other =
    or_else (with_source Source.geodesic (calculate_geodesic_matrix env places))
      (with_source Source.geodesic_fallback (calculate_geodesic_matrix env places))

unfoldable pub calculate_distance_matrix : Env → List Place → Preference → Result (Matrix × Source)
unfolding calculate_osrm_matrix calculate_geodesic_matrix
calculate_distance_matrix env places preference =
    by_preference env places (resolve env (length places) preference)
