-- ===== src/MultiCity/Tour.antt =====
-- What the sequence of the cities is (services/intercity_service.py).
use Prim.Native.String.{String}
use text.Mathlib.Text.{◌==◌ as str_eq}
use text.Mathlib.TextEquality.{eq_iff}
use mathlib.Core.List.{Perm}
use mathlib.Core.List.Perm
use mathlib.Core.Path.{subst}
use goveling_ml.Prelude.{
  ℕ, zero, suc, ◌≤◌, ◌≡◌, refl, sym, ap, ◌∙◌, ◌⊎◌, inl, inr, true, false, Option, none, some, List,
  [], ◌∷◌, leb, arith, length, All, All-mono, Bool-cases, in_either, both,
}
use goveling_ml.Prelude.Int.{ℤ}
use goveling_ml.MultiCity.{City}
use goveling_ml.MultiCity.Sequence.{
  has_name, find_named, first_stop, others, distance_to, nearest, visit_from,
  find_optimal_city_sequence,
}

-- No two cities have the same name.
abbrev pub IsDistinct : List City → Type 0
IsDistinct [] = Unit
IsDistinct (c ∷ cs) = All (λ d. ¬ (d.name ≡ c.name)) cs × IsDistinct cs

abbrev pub Occurs : City → List City → Type 0
Occurs x [] = ⊥
Occurs x (c ∷ cs) = (x ≡ c) ⊎ Occurs x cs

has_name_refl : (c : City) → has_name c.name c ≡ true
has_name_refl c = (eq_iff c.name c.name).1 refl

pub other_name : (c d : City) → ¬ (d.name ≡ c.name) → has_name c.name d ≡ false
other_name c d different = elim (Bool-cases (has_name c.name d)) [
  | inl same ↦ absurd (different ((eq_iff d.name c.name).0 same))
  | inr other ↦ other
]

others_same : (c : City) (cs : List City) → All (λ d. ¬ (d.name ≡ c.name)) cs → others c cs ≡ cs
others_same c [] h = refl
others_same c (d ∷ ds) h = rw (other_name c d h.0, others_same c ds h.1) refl

differs_within :
    (x c : City) (cs : List City)
    → Occurs x cs
    → All (λ d. ¬ (d.name ≡ c.name)) cs
    → ¬ (x.name ≡ c.name)
differs_within x c [] o h = elim o [ ]
differs_within x c (d ∷ ds) (inl same) h = λ p. h.0 (ap (λ y. y.name) (sym same) ∙ p)
differs_within x c (d ∷ ds) (inr later) h = differs_within x c ds later h.1

others-perm : (x : City) (cs : List City) → Occurs x cs → IsDistinct cs → Perm (x ∷ others x cs) cs
others-perm x [] o h = elim o [ ]
others-perm x (c ∷ cs) (inl same) h =
    subst (λ y. Perm (y ∷ others y (c ∷ cs)) (c ∷ cs)) (sym same)
      (rw (has_name_refl c, others_same c cs h.0) (Perm.refl (c ∷ cs)))
others-perm x (c ∷ cs) (inr later) h =
    let different = other_name x c (λ p. differs_within x c cs later h.0 (sym p)) in
    rw different
      (Perm.trans (Perm.swap c x (others x cs)) (Perm.cons c (others-perm x cs later h.1)))

find_named-Occurs :
    (s : String) (d : City) (cs : List City)
    → (find_named s d cs ≡ d) ⊎ Occurs (find_named s d cs) cs
find_named-Occurs s d [] = inl refl
find_named-Occurs s d (c ∷ cs) =
    both (λ x. (x ≡ d) ⊎ Occurs x (c ∷ cs)) (has_name s c) (inr (inl refl))
      (later (find_named-Occurs s d cs))
  where
    later : {x : City} → (x ≡ d) ⊎ Occurs x cs → (x ≡ d) ⊎ Occurs x (c ∷ cs)
    later (inl same) = inl same
    later (inr found) = inr (inr found)

first_stop-Occurs :
    (start : Option String) (c : City) (cs : List City) → Occurs (first_stop start c cs) (c ∷ cs)
first_stop-Occurs none c cs = inl refl
first_stop-Occurs (some s) c cs =
    both (λ x. Occurs x (c ∷ cs)) (str_eq s "") (inl refl) (named (find_named-Occurs s c (c ∷ cs)))
  where
    named : {x : City} → (x ≡ c) ⊎ Occurs x (c ∷ cs) → Occurs x (c ∷ cs)
    named (inl same) = inl same
    named (inr found) = found

module _ (geodesic : ℤ × ℤ → ℤ × ℤ → ℕ) where
  -- The first city of the list is as near to a city as any other of the list.
  abbrev pub IsNearest : City → List City → Type 0
  IsNearest current [] = Unit
  IsNearest current (c ∷ cs) =
      All (λ d. distance_to geodesic current c ≤ distance_to geodesic current d) cs

  abbrev pub IsGreedy : List City → Type 0
  IsGreedy [] = Unit
  IsGreedy (c ∷ cs) = IsNearest c cs × IsGreedy cs

  -- What is known of the nearest city and the rest.
  abbrev pub IsSplit : City → City → List City → City × List City → Type 0
  IsSplit x c cs (best, rest) =
      Perm (best ∷ rest) (c ∷ cs)
      × (length rest ≡ length cs)
      × All (λ d. distance_to geodesic x best ≤ distance_to geodesic x d) (c ∷ cs)

  nearest-IsSplit : (x c : City) (cs : List City) → IsSplit x c cs (nearest geodesic x c cs)
  nearest-IsSplit x c [] = (Perm.refl (c ∷ []), refl, (omega arith, tt))
  nearest-IsSplit x c (d ∷ ds) =
      let (best, rest) = nearest geodesic x d ds in
      let (perm, len, all) = nearest-IsSplit x d ds in
      let as_near : distance_to geodesic x c ≤ distance_to geodesic x best
          → All (λ e. distance_to geodesic x c ≤ distance_to geodesic x e) (d ∷ ds) =
        λ h. All-mono (λ e k. omega arith) (d ∷ ds) all in
      in_either (IsSplit x c (d ∷ ds))
        (leb (distance_to geodesic x c) (distance_to geodesic x best))
        (λ near. (Perm.refl (c ∷ d ∷ ds), refl, (omega arith, as_near (ground arith))))
        (λ far.
          (Perm.trans (Perm.swap c best rest) (Perm.cons c perm), ap suc len, (ground arith, all)))

  pub nearest-All {ℓ} :
      (P : City → Type ℓ) (x c : City) (cs : List City)
      → All P (c ∷ cs)
      → let (best, rest) = nearest geodesic x c cs in P best × All P rest
  nearest-All P x c [] h = h
  nearest-All P x c (d ∷ ds) h =
      let (first, later) = nearest-All P x d ds h.1 in
      elim (Bool-cases
        (leb (distance_to geodesic x c) (distance_to geodesic x (nearest geodesic x d ds).0))) [
          | inl near ↦ rw near h
          | inr far ↦ rw far (first, (h.0, later))
        ]

  pub visit_from-All {ℓ} :
      (P : City → Type ℓ) (n : ℕ) (x : City) (cs : List City)
      → All P (x ∷ cs)
      → All P (visit_from geodesic n x cs)
  visit_from-All P n x [] h = h
  visit_from-All P zero x (c ∷ cs) h = (h.0, tt)
  visit_from-All P (suc n) x (c ∷ cs) h = (h.0, visit_from-All P n _ _ (nearest-All P x c cs h.1))

  visit_from-IsNearest :
      (n : ℕ) (w x : City) (cs : List City)
      → All (λ d. distance_to geodesic w x ≤ distance_to geodesic w d) cs
      → IsNearest w (visit_from geodesic n x cs)
  visit_from-IsNearest n w x [] h = tt
  visit_from-IsNearest zero w x (c ∷ cs) h = tt
  visit_from-IsNearest (suc n) w x (c ∷ cs) h = visit_from-All _ n _ _ (nearest-All _ x c cs h)

  visit_from-lem :
      (n : ℕ) (x : City) (cs : List City)
      → length cs ≤ n
      → Perm (visit_from geodesic n x cs) (x ∷ cs) × IsGreedy (visit_from geodesic n x cs)
  visit_from-lem n x [] h = (Perm.refl (x ∷ []), (tt, tt))
  visit_from-lem zero x (c ∷ cs) h = absurd (omega arith)
  visit_from-lem (suc n) x (c ∷ cs) h =
      let (best, rest) = nearest geodesic x c cs in
      let (perm, len, all) = nearest-IsSplit x c cs in
      let (same, greedy) = visit_from-lem n best rest (omega arith) in
      (
        Perm.cons x (Perm.trans same perm),
        (visit_from-IsNearest n x best rest (nearest-All _ x c cs all).1, greedy),
      )

  -- If no two cities have the same name, the sequence visits each city exactly once, and of the
  -- cities that are left each time the one that is nearest to the last.
  pub find_optimal_city_sequence-IsGreedy :
      (cities : List City) (start : Option String)
      → IsDistinct cities
      → Perm (find_optimal_city_sequence geodesic cities start) cities
        × IsGreedy (find_optimal_city_sequence geodesic cities start)
  unfolding find_optimal_city_sequence
  find_optimal_city_sequence-IsGreedy [] start h = (Perm.refl [], tt)
  find_optimal_city_sequence-IsGreedy (c ∷ []) start h = (Perm.refl (c ∷ []), (tt, tt))
  find_optimal_city_sequence-IsGreedy (c ∷ d ∷ cs) start h =
      let current = first_stop start c (d ∷ cs) in
      let (perm, greedy) = visit_from-lem _ current (others current (c ∷ d ∷ cs)) (omega arith) in
      (
        Perm.trans perm (others-perm current (c ∷ d ∷ cs) (first_stop-Occurs start c (d ∷ cs)) h),
        greedy,
      )
