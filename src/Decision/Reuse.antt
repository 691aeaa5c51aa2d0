-- ===== src/Decision/Reuse.antt =====
-- Decisions that are used again, and the bound of the history (utils/ortools_decision_engine.py).
use Prim.Native.String.{String}
use goveling_ml.Prelude.{
  ℕ, ◌-◌, ◌≤◌, ◌<◌, ◌≡◌, refl, ap, ◌∙◌, inl, inr, Bool, true, false, Option, none, some, List, [],
  ◌∷◌, ◌++◌, ltb, arith, length, length-append, length-drop, Bool-cases, Option-cases,
}
use goveling_ml.Prelude.Dict.{lookup, lookup-set}
use goveling_ml.Decision.{Place, Request, Settings, DecisionResult}
use goveling_ml.Decision.Engine.{
  Factors, factors, Tracked, Inputs, Engine, init, check_ortools_health, track_decision, track_if,
  decide, should_use_ortools, decide_all,
}

track_decision-le :
    (t : Tracked) (history : List Tracked)
    → length history ≤ 1000
    → length (track_decision t history) ≤ 1000
unfolding track_decision
track_decision-le t history h = ground (
  arith,
  length-append history (t ∷ []),
  length-drop (length (history ++ t ∷ []) - 500) (history ++ t ∷ []),
)

track_if-cache :
    (b : Bool) (t : Tracked) (e : Engine)
    → ((track_if b t e).decision_cache ≡ e.decision_cache)
      × ((track_if b t e).cache_ttl ≡ e.cache_ttl)
track_if-cache true t e = (refl, refl)
track_if-cache false t e = (refl, refl)

module _ (lower : String → String) (automatic_city : List Place → Option String)
    (user_hash : String → ℕ) (digest : Factors → ℕ) (s : Settings) where
  abbrev ask : Inputs → Request → Engine → DecisionResult × Engine
  ask = should_use_ortools lower automatic_city user_hash digest s

  abbrev make : Inputs → Request → Bool × Engine → DecisionResult × Engine
  make = decide lower automatic_city user_hash digest s

  -- What is kept of a decision that was made anew.
  lookup-decide :
      (i : Inputs) (r : Request) (healthy : Bool) (e : Engine)
      → let made = make i r (healthy, e) in
        (lookup (digest (factors s r)) made.1.decision_cache ≡ some (made.0, i.saved))
        × (made.1.cache_ttl ≡ e.cache_ttl)
  unfolding decide
  lookup-decide i r healthy e =
      let (same, ttl) = track_if-cache s.track_performance _ _ in
      (
        ap (lookup (digest (factors s r))) same
            ∙ lookup-set (digest (factors s r)) _ e.decision_cache,
        ttl,
      )

  check_ortools_health-cache :
      (i : Inputs) (e : Engine)
      → let checked = (check_ortools_health i e).1 in
        (checked.cache_ttl ≡ e.cache_ttl) × (checked.performance_history ≡ e.performance_history)
  unfolding check_ortools_health
  check_ortools_health-cache i e = ground arith

  answer-hit :
      (i : Inputs) (r : Request) (e : Engine) (d : DecisionResult) (timestamp : ℕ)
      → lookup (digest (factors s r)) e.decision_cache ≡ some (d, timestamp)
      → i.now - timestamp < e.cache_ttl
      → ask i r e ≡ (d, e)
  unfolding should_use_ortools
  answer-hit i r e d timestamp kept fresh =
      let young : ltb (i.now - timestamp) e.cache_ttl ≡ true = ground arith in rw (kept, young) refl

  -- A decision that was made anew, because none was kept under its factors, is what every request
  -- with the same number of places, dates, transport and user gets for ten minutes, whatever its
  -- places are and however the service answers for its health then; the engine stays as it is.
  pub should_use_ortools-again :
      (i i' : Inputs) (r r' : Request) (e : Engine)
      → lookup (digest (factors s r)) e.decision_cache ≡ none
      → factors s r' ≡ factors s r
      → i'.now - i.saved < e.cache_ttl
      → ask i' r' (ask i r e).1 ≡ ((ask i r e).0, (ask i r e).1)
  unfolding should_use_ortools
  should_use_ortools-again i i' r r' e missing same soon =
      let (healthy, e1) = check_ortools_health i e in
      let (kept, ttl) =
        lookup-decide i r (check_ortools_health i e).0 (check_ortools_health i e).1 in
      rw missing (
        answer-hit i' r' _ _ i.saved (rw same kept)
          (omega (arith, soon, ttl, (check_ortools_health-cache i e).0)))

  track_if-le :
      (b : Bool) (t : Tracked) (e : Engine)
      → length e.performance_history ≤ 1000
      → length (track_if b t e).performance_history ≤ 1000
  track_if-le true t e h = track_decision-le t e.performance_history h
  track_if-le false t e h = h

  should_use_ortools-le :
      (i : Inputs) (r : Request) (e : Engine)
      → length e.performance_history ≤ 1000
      → length (ask i r e).1.performance_history ≤ 1000
  unfolding should_use_ortools decide
  should_use_ortools-le i r e h =
      let same = (check_ortools_health-cache i e).1 in
      let anew =
        track_if-le s.track_performance _
          (record ((check_ortools_health i e).1) { decision_cache = _ })
          (omega (arith, h, ap length same)) in
      elim (Option-cases (lookup (digest (factors s r)) e.decision_cache)) [
        | inl missing ↦ rw missing anew
        | inr ((d, t), kept) ↦ elim (Bool-cases (ltb (i.now - t) e.cache_ttl)) [
          | inl fresh ↦ rw (kept, fresh) h
          | inr old ↦ rw (kept, old) anew
        ]
      ]

  -- Whatever is asked of a new engine, its history never holds more than 1000 decisions.
  pub decide_all-le :
      (calls : List (Inputs × Request))
      → length (decide_all lower automatic_city user_hash digest s calls init).performance_history
        ≤ 1000
  unfolding decide_all init
  decide_all-le calls = from calls init (omega arith)
    where
      from :
          (calls : List (Inputs × Request)) (e : Engine)
          → length e.performance_history ≤ 1000
          → length (decide_all lower automatic_city user_hash digest s calls e).performance_history
            ≤ 1000
      from [] e h = h
      from ((i, r) ∷ rest) e h = from rest (ask i r e).1 (should_use_ortools-le i r e h)
