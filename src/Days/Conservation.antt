-- ===== src/Days/Conservation.antt =====
-- Which places the steps of `allocate_clusters_to_days` add to the days
-- (utils/hybrid_optimizer_v31.py).
use goveling_ml.Prelude.{
  ℕ, zero, suc, ◌+◌, ◌%◌, ◌<◌, ◌≡◌, refl, ap, ◌∙◌, inl, inr, Bool, some, List, [], ◌∷◌, ◌++◌, map,
  ltb, leb, arith, length, count_by, length-update_at, Bool-cases, Option-cases,
}
use goveling_ml.Prelude.Exceptions.{Result, ok, and_then}
use goveling_ml.Schedule.Data.{Place, Cluster}
use goveling_ml.Days.Assign.{
  Assignment, least, add_to, add_to_least, singles, relaxed_step, relaxed_places, relaxed_from,
  distribute_intensive_mode, round_robin, pairs, with_places,
}
use goveling_ml.Days.Pack.{all_clusters}

abbrev pub places_of : List Cluster → List Place
places_of [] = []
places_of (c ∷ cs) = c.places ++ places_of cs

-- How many places of all days pass the test.
abbrev pub tally : (Place → Bool) → Assignment → ℕ
tally p days = count_by p (places_of (all_clusters days))

-- The result is an assignment of as many days, to which exactly the places of the clusters came.
abbrev pub IsAdded : {A : Type 0} → (A → Assignment) → List Cluster → Assignment → Result A → Type 0
IsAdded {A = A} f cs days r =
    (a : A) × (r ≡ ok a)
    × (length (f a) ≡ length days)
    × ((p : Place → Bool) → tally p (f a) ≡ tally p days + count_by p (places_of cs))

module _ (p : Place → Bool) where
  pub count_by-append : (xs ys : List Place) → count_by p (xs ++ ys) ≡ count_by p xs + count_by p ys
  count_by-append [] ys = omega arith
  count_by-append (x ∷ xs) ys = omega (arith, count_by-append xs ys)

  count_by-places_of :
      (cs ds : List Cluster)
      → count_by p (places_of (cs ++ ds)) ≡ count_by p (places_of cs) + count_by p (places_of ds)
  count_by-places_of [] ds = omega arith
  count_by-places_of (c ∷ cs) ds = omega (
    arith,
    count_by-append c.places (places_of (cs ++ ds)),
    count_by-append c.places (places_of cs),
    count_by-places_of cs ds,
  )

  tally-add_to :
      (c : Cluster) (i : ℕ) (days : Assignment)
      → i < length days
      → tally p (add_to i c days) ≡ tally p days + count_by p (places_of (c ∷ []))
  tally-add_to c i [] lt = absurd (omega arith)
  tally-add_to c zero (d ∷ ds) lt = omega (
    arith,
    count_by-places_of (d ++ c ∷ []) (all_clusters ds),
    count_by-places_of d (c ∷ []),
    count_by-places_of d (all_clusters ds),
  )
  tally-add_to c (suc i) (d ∷ ds) lt = omega (
    arith,
    count_by-places_of d (all_clusters (add_to i c ds)),
    count_by-places_of d (all_clusters ds),
    tally-add_to c i ds (omega arith),
  )

least-lt : (days : Assignment) (i n : ℕ) → least days ≡ some (i, n) → i < length days
least-lt [] i n e = cc
least-lt (d ∷ ds) i n e = elim (Option-cases (least ds)) [
  | inl empty ↦ ground (arith, rw empty at e)
  | inr ((j, m), f) ↦ ground (arith, least-lt ds j m f, rw f at e)
]

least-some : (days : Assignment) → 0 < length days → (x : ℕ × ℕ) × (least days ≡ some x)
least-some [] h = absurd (omega arith)
least-some (d ∷ ds) h = elim (Option-cases (least ds)) [
  | inl empty ↦ rw empty ((0, length d), refl)
  | inr ((j, m), f) ↦ elim (Bool-cases (leb (length d) m)) [
    | inl fewer ↦ rw (f, fewer) ((0, length d), refl)
    | inr more ↦ rw (f, more) ((suc j, m), refl)
  ]
]

add_to-IsAdded :
    (c : Cluster) (i : ℕ) (days : Assignment)
    → i < length days
    → IsAdded (λ d. d) (c ∷ []) days (ok (add_to i c days))
add_to-IsAdded c i days lt = (
  add_to i c days,
  refl,
  length-update_at i (λ d. d ++ c ∷ []) days,
  λ p. tally-add_to p c i days lt,
)

pub add_to_least-IsAdded :
    (c : Cluster) (days : Assignment)
    → 0 < length days
    → IsAdded (λ d. d) (c ∷ []) days (add_to_least c days)
unfolding add_to_least
add_to_least-IsAdded c days h =
    let ((i, n), e) = least-some days h in rw e (add_to-IsAdded c i days (least-lt days i n e))

-- One step after another.
pub and_then-IsAdded :
    {A B : Type 0} (f : A → Assignment) (g : B → Assignment) (cs ds : List Cluster)
    (days : Assignment) (r : Result A) (next : A → Result B)
    → IsAdded f cs days r
    → ((a : A) → length (f a) ≡ length days → IsAdded g ds (f a) (next a))
    → IsAdded g (cs ++ ds) days (and_then r next)
and_then-IsAdded f g cs ds days r next (a, e, n, t) step =
    let (b, e', n', t') = step a n in
    (b, rw e e', n' ∙ n, λ p. omega (arith, t p, t' p, count_by-places_of p cs ds))

pub nothing-IsAdded : {A : Type 0} (f : A → Assignment) (a : A) → IsAdded f [] (f a) (ok a)
nothing-IsAdded f a = (a, refl, refl, λ p. omega arith)

-- Only the places of the clusters matter.
pub same_places-IsAdded :
    {A : Type 0} (f : A → Assignment) (cs ds : List Cluster) (days : Assignment) (r : Result A)
    → ((p : Place → Bool) → count_by p (places_of cs) ≡ count_by p (places_of ds))
    → IsAdded f cs days r
    → IsAdded f ds days r
same_places-IsAdded f cs ds days r same (a, e, n, t) = (a, e, n, λ p. omega (arith, t p, same p))

pub places_of-singles : (c : Cluster) (ps : List Place) → places_of (singles c ps) ≡ ps
places_of-singles c [] = refl
places_of-singles c (p ∷ ps) = ap (λ rest. p ∷ rest) (places_of-singles c ps)

pub places_of-pairs :
    (c : Cluster) (ps : List Place) → places_of (map (with_places c) (pairs ps)) ≡ ps
places_of-pairs c [] = refl
places_of-pairs c (p ∷ []) = refl
places_of-pairs c (p ∷ q ∷ ps) = ap (λ rest. p ∷ q ∷ rest) (places_of-pairs c ps)

pub intensive-IsAdded :
    (cs : List Cluster) (days : Assignment)
    → 0 < length days
    → IsAdded (λ d. d) cs days (distribute_intensive_mode cs days)
unfolding distribute_intensive_mode
intensive-IsAdded [] days h = nothing-IsAdded (λ d. d) days
intensive-IsAdded (c ∷ cs) days h =
    and_then-IsAdded (λ d. d) (λ d. d) (c ∷ []) cs days (add_to_least c days) _
      (add_to_least-IsAdded c days h) (λ out n. intensive-IsAdded cs out (omega (arith, n)))

pub round_robin-IsAdded :
    (i : ℕ) (cs : List Cluster) (days : Assignment)
    → 0 < length days
    → IsAdded (λ d. d) cs days (round_robin i cs days)
unfolding round_robin
round_robin-IsAdded i [] days h = nothing-IsAdded (λ d. d) days
round_robin-IsAdded i (c ∷ cs) [] h = absurd (omega arith)
round_robin-IsAdded i (c ∷ cs) (d ∷ ds) h =
    and_then-IsAdded (λ x. x) (λ x. x) (c ∷ []) cs (d ∷ ds)
      (ok (add_to (i % length (d ∷ ds)) c (d ∷ ds))) (round_robin (i + 1) cs)
      (add_to-IsAdded c (i % length (d ∷ ds)) (d ∷ ds) (omega arith))
      (λ out n. round_robin-IsAdded (i + 1) cs out (omega (arith, n)))

relaxed_step-IsAdded :
    (i : ℕ) (c : Cluster) (days : Assignment)
    → 0 < length days
    → IsAdded (λ x. x.1) (c ∷ []) days (relaxed_step i c days)
unfolding relaxed_step
relaxed_step-IsAdded i c days h = elim (Bool-cases (ltb i (length days))) [
  | inl free ↦
      (let (out, e, n, t) = add_to-IsAdded c i days (ground arith) in
        rw free (
          (i + 1, add_to i c days),
          refl,
          length-update_at i (λ d. d ++ c ∷ []) days,
          λ p. tally-add_to p c i days (ground arith),
        ))
  | inr used ↦
      (let (out, e, n, t) = add_to_least-IsAdded c days h in rw (used, e) ((i, out), refl, n, t))
]

relaxed_places-IsAdded :
    (i : ℕ) (cs : List Cluster) (days : Assignment)
    → 0 < length days
    → IsAdded (λ x. x.1) cs days (relaxed_places i cs days)
unfolding relaxed_places
relaxed_places-IsAdded i [] days h = ((i, days), refl, refl, λ p. omega arith)
relaxed_places-IsAdded i (c ∷ cs) days h =
    and_then-IsAdded (λ x. x.1) (λ x. x.1) (c ∷ []) cs days (relaxed_step i c days) _
      (relaxed_step-IsAdded i c days h)
      (λ (j, out) n. relaxed_places-IsAdded j cs out (omega (arith, n)))

pub relaxed_from-IsAdded :
    (i : ℕ) (cs : List Cluster) (days : Assignment)
    → 0 < length days
    → IsAdded (λ d. d) cs days (relaxed_from i cs days)
unfolding relaxed_from
relaxed_from-IsAdded i [] days h = nothing-IsAdded (λ d. d) days
relaxed_from-IsAdded i (c ∷ cs) days h =
    and_then-IsAdded (λ x. x.1) (λ d. d) (c ∷ []) cs days
      (relaxed_places i (singles c c.places) days) _
      (same_places-IsAdded (λ x. x.1) (singles c c.places) (c ∷ []) days _
        (λ p.
          omega
            (arith, ap (count_by p) (places_of-singles c c.places), count_by-append p c.places []))
        (relaxed_places-IsAdded i (singles c c.places) days h))
      (λ (j, out) n. relaxed_from-IsAdded j cs out (omega (arith, n)))
