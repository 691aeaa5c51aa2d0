-- ===== src/Retry/Places.antt =====
-- Why `places_service_robust` answers as it does (utils/hybrid_optimizer_v31.py).
use mathlib.Core.Path.{subst}
use goveling_ml.Prelude.{
  ℕ, zero, suc, ◌+◌, ◌≤◌, ◌<◌, ◌≡◌, refl, sym, ◌⊎◌, inl, inr, true, ltb, arith, Bool-cases,
}
use goveling_ml.Prelude.Exceptions.{Result, ok, err, circuit_open, type_error, quota_exceeded}
use goveling_ml.Breaker.{Attempt}
use goveling_ml.Retry.{
  World, PlacesReply, found, synthetic, protected_call, retry_places, react_places, places_from,
  places_service_robust,
}

module _ {R : Type 0} where
  -- An attempt that ended so is followed by another one, if any is left.
  abbrev IsRetried : Result R → Type 0
  IsRetried (ok a) = ⊥
  IsRetried (err circuit_open) = ⊥
  IsRetried (err quota_exceeded) = ⊥
  IsRetried (err _) = Unit

  -- What a protected call returns is the outcome of the service or an exception of the breaker.
  abbrev ComesFrom : Attempt R → Result R → Type 0
  ComesFrom t r = (r ≡ t.outcome) ⊎ ((r ≡ err circuit_open) ⊎ (r ≡ err type_error))

  protected_call-ComesFrom : (t : Attempt R) (w : World) → ComesFrom t (protected_call t w).0
  unfolding protected_call
  protected_call-ComesFrom t w = ground arith

  invoked-protected_call :
      (t : Attempt R) (w : World) → (protected_call t w).1.invoked ≤ w.invoked + 1
  unfolding protected_call
  invoked-protected_call t w = ground arith

module _ {R : Type 0} (env : ℕ → Attempt R) (max_retries : ℕ) (w : World) where
  -- The breaker before attempt number i, when each attempt before it has made its call.
  abbrev world_at : ℕ → World
  world_at zero = w
  world_at (suc i) = (protected_call (env i) (world_at i)).1

  abbrev outcome_at : ℕ → Result R
  outcome_at i = (protected_call (env i) (world_at i)).0

  -- All attempts before number i are retried, and it is the last one made.
  abbrev EndsAt : ℕ → World → Type 0
  EndsAt i final =
      (i ≤ max_retries) × ((j : ℕ) → j < i → IsRetried (outcome_at j)) × (final ≡ world_at (suc i))

  -- The reply is decided by the attempt at which the loop ends.
  abbrev pub Explains : PlacesReply R × World → Type 0
  Explains (found a, final) =
      (i : ℕ) × (EndsAt i final) × (outcome_at i ≡ ok a) × ((env i).outcome ≡ ok a)
  Explains (synthetic, final) =
      (i : ℕ) × (EndsAt i final)
      × (outcome_at i ≡ err quota_exceeded)
      × ((env i).outcome ≡ err quota_exceeded)
  Explains (PlacesReply.emergency, final) =
      (i : ℕ) × (EndsAt i final)
      × ((outcome_at i ≡ err circuit_open) ⊎ ((i ≡ max_retries) × IsRetried (outcome_at i)))

  abbrev RetriedBefore : ℕ → Type 0
  RetriedBefore i = (j : ℕ) → j < i → IsRetried (outcome_at j)

  retried_on : (i : ℕ) → RetriedBefore i → IsRetried (outcome_at i) → RetriedBefore (suc i)
  retried_on i before here j h = elim (Bool-cases (ltb j i)) [
    | inl earlier ↦ before j (ground arith)
    | inr same ↦
        (let e : i ≡ j = ground arith in subst (λ (n : ℕ). IsRetried (outcome_at n)) e here)
  ]

  -- An exception that is retried: the loop goes on, or ends with the last attempt.
  retried-Explains :
      (i : ℕ) (r : Result R) (next : PlacesReply R × World)
      → i ≤ max_retries
      → RetriedBefore i
      → outcome_at i ≡ r
      → IsRetried r
      → (ltb i max_retries ≡ true → Explains next)
      → Explains (retry_places max_retries i (world_at (suc i)) next)
  retried-Explains i r next le before e here go = elim (Bool-cases (ltb i max_retries)) [
    | inl more ↦ rw more (go more)
    | inr last ↦
        rw last (i, (le, before, refl), inr (ground arith, subst (λ x. IsRetried x) (sym e) here))
  ]

  served_outcome : (i : ℕ) (a : R) → outcome_at i ≡ ok a → (env i).outcome ≡ ok a
  served_outcome i a e = ground (arith, protected_call-ComesFrom (env i) (world_at i))

  quota_outcome : (i : ℕ) → outcome_at i ≡ err quota_exceeded → (env i).outcome ≡ err quota_exceeded
  quota_outcome i e = ground (arith, protected_call-ComesFrom (env i) (world_at i))

  react-Explains :
      (i : ℕ) (r : Result R) (next : PlacesReply R × World)
      → i ≤ max_retries
      → RetriedBefore i
      → outcome_at i ≡ r
      → (ltb i max_retries ≡ true → IsRetried r → Explains next)
      → Explains (react_places max_retries i r (world_at (suc i)) next)
  react-Explains i (ok a) next le before e go = (i, (le, before, refl), e, served_outcome i a e)
  react-Explains i (err circuit_open) next le before e go = (i, (le, before, refl), inl e)
  react-Explains i (err quota_exceeded) next le before e go =
      (i, (le, before, refl), e, quota_outcome i e)
  react-Explains i (err other) next le before e go =
      retried-Explains i (err other) next le before e tt (λ more. go more tt)

  places_from-Explains :
      (left i : ℕ)
      → left + i ≡ max_retries
      → RetriedBefore i
      → Explains (places_from (suc left) i max_retries env (world_at i))
  unfolding places_from
  places_from-Explains zero i s before =
      react-Explains i (outcome_at i) _ (omega arith) before refl (λ more. absurd (ground arith))
  places_from-Explains (suc left) i s before =
      react-Explains i (outcome_at i) _ (omega arith) before refl (λ more here.
        subst
          (λ (n : ℕ).
            Explains
              (places_from (suc left) n max_retries env (protected_call (env i) (world_at i)).1))
          (omega arith)
          (places_from-Explains left (suc i) (omega arith) (retried_on i before here)))

  invoked-world_at : (i : ℕ) → (world_at i).invoked ≤ w.invoked + i
  invoked-world_at zero = omega arith
  invoked-world_at (suc i) =
      omega (arith, invoked-world_at i, invoked-protected_call (env i) (world_at i))

  invoked-Explains :
      (p : PlacesReply R × World) → Explains p → p.1.invoked ≤ w.invoked + (max_retries + 1)
  invoked-Explains (found a, v) (i, (le, before, e), x, y) =
      rw e (omega (arith, invoked-world_at (suc i)))
  invoked-Explains (synthetic, v) (i, (le, before, e), x, y) =
      rw e (omega (arith, invoked-world_at (suc i)))
  invoked-Explains (PlacesReply.emergency, v) (i, (le, before, e), x) =
      rw e (omega (arith, invoked-world_at (suc i)))

-- A request for places always ends with an answer, which its last attempt decides, after at most
-- max_retries + 1 calls of the service; each attempt before it has raised an exception that is neither
-- an open circuit nor an exceeded quota. If the answer is a list of the service, then the last
-- attempt returned it; if it is the synthetic list, then that attempt exceeded the quota; if it is the
-- emergency answer, then the circuit was open for that attempt, or all max_retries + 1 attempts have
-- raised other exceptions.
pub places_service_robust-IsExplained :
    {R : Type 0} (max_retries : ℕ) (env : ℕ → Attempt R) (w : World)
    → Explains env max_retries w (places_service_robust max_retries env w)
      × ((places_service_robust max_retries env w).1.invoked ≤ w.invoked + (max_retries + 1))
unfolding places_service_robust
places_service_robust-IsExplained m env w =
    let explained = places_from-Explains env m w m 0 (omega arith) (λ j h. absurd (omega arith)) in
    let same : suc m ≡ m + 1 = omega arith in
    let x = subst (λ (n : ℕ). Explains env m w (places_from n 0 m env w)) same explained in
    (x, invoked-Explains env m w _ x)
