-- ===== src/Decision/Stats.antt =====
-- `get_decision_stats` of utils/ortools_decision_engine.py. Percentages and averages are fractions.
use goveling_ml.Prelude.{
  ℕ, ◌+◌, ◌-◌, ◌*◌, ◌≤◌, ◌≡◌, inl, inr, not, Option, none, some, List, [], ◌∷◌, map, max, arith,
  length, length-drop, drop, filter_by, sum, Bool-cases,
}
use goveling_ml.Monitoring.State.{Fraction}
use goveling_ml.Decision.Engine.{Tracked, Engine}

pub record Stats : Type 0 where
  pub total_decisions : ℕ
  pub ortools_percentage : Fraction
  pub legacy_percentage : Fraction
  pub avg_confidence_ortools : Fraction
  pub avg_complexity_ortools : Fraction
  pub avg_decision_time_ms : Fraction
  pub cache_hit_rate : Fraction

-- `history[-100:]`
abbrev pub recent_of : List Tracked → List Tracked
recent_of history = drop (length history - 100) history

abbrev pub for_ortools : List Tracked → List Tracked
for_ortools = filter_by (λ t. t.decision.use_ortools)

abbrev pub for_legacy : List Tracked → List Tracked
for_legacy = filter_by (λ t. not t.decision.use_ortools)

-- What is called the hit rate is the size of the cache for each recent decision.
abbrev pub stats_of : Engine → List Tracked → Option Stats
stats_of e [] = none
stats_of e (t ∷ ts) =
    let recent = recent_of (t ∷ ts) in
    let ortools = for_ortools recent in
    some (record {
      total_decisions = length recent;
      ortools_percentage = record { num = length ortools * 100; den = length recent };
      legacy_percentage = record { num = length (for_legacy recent) * 100; den = length recent };
      avg_confidence_ortools = record {
        num = sum (map (λ d. d.decision.confidence_score) ortools);
        den = max (length ortools) 1;
      };
      avg_complexity_ortools = record {
        num = sum (map (λ d. d.decision.complexity_score) ortools);
        den = max (length ortools) 1;
      };
      avg_decision_time_ms = record {
        num = sum (map (λ d. d.decision_time_ms) recent);
        den = length recent;
      };
      cache_hit_rate = record { num = length e.decision_cache * 100; den = max (length recent) 1 };
    })

unfoldable pub get_decision_stats : Engine → Option Stats
get_decision_stats e = stats_of e e.performance_history

length-parts : (ts : List Tracked) → length (for_ortools ts) + length (for_legacy ts) ≡ length ts
length-parts [] = omega arith
length-parts (t ∷ ts) = elim (Bool-cases t.decision.use_ortools) [
  | inl o ↦ rw o (omega (arith, length-parts ts))
  | inr l ↦ rw l (omega (arith, length-parts ts))
]

-- The shares make up the whole of at least one and at most 100 decisions.
abbrev pub IsWhole : Option Stats → Type 0
IsWhole none = Unit
IsWhole (some s) =
    (s.ortools_percentage.num + s.legacy_percentage.num ≡ 100 * s.total_decisions)
    × (1 ≤ s.total_decisions)
    × (s.total_decisions ≤ 100)

-- The percentages of the statistics add up to 100, over one to a hundred decisions.
pub get_decision_stats-IsWhole : (e : Engine) → IsWhole (get_decision_stats e)
unfolding get_decision_stats
get_decision_stats-IsWhole e = of_history e.performance_history
  where
    of_history : (ts : List Tracked) → IsWhole (stats_of e ts)
    of_history [] = tt
    of_history (t ∷ ts) =
        let parts = length-parts (recent_of (t ∷ ts)) in
        let count = length-drop (length (t ∷ ts) - 100) (t ∷ ts) in
        (omega (arith, parts), omega (arith, count), omega (arith, count))
