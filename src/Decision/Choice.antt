-- ===== src/Decision/Choice.antt =====
-- `_make_decision` of utils/ortools_decision_engine.py, with confidence in hundredths.
use goveling_ml.Prelude.{
  ℕ, ◌+◌, Bool, true, false, not, List, [], ◌∷◌, ◌++◌, max, leb, if◌then◌else◌,
}
use goveling_ml.Prelude.Int.{ℤ, pos, leb_ℤ}
use goveling_ml.Decision.{
  Settings, ItineraryComplexity, Reason, feature_disabled, user_not_in_rollout_percentage,
  geography_not_eligible, ortools_service_unhealthy, single_day_ok, sufficient_places,
  moderate_places, too_few_places, multi_day, high_complexity, medium_complexity,
  high_confidence_ortools, medium_confidence_ortools, low_confidence_fallback_legacy,
  ortools_with_legacy_fallback, legacy_only, DecisionResult, FeatureFlags, GeoAnalysis,
}

-- What the chain of factors sets.
pub record Choice : Type 0 where
  pub use_ortools : Bool
  pub confidence : ℕ
  pub reasons : List Reason

abbrev pub refuse : List Reason → Choice
refuse reasons = record { use_ortools = false; confidence = 0; reasons = reasons }

abbrev pub by_places : Settings → ℕ → ℕ × Reason
by_places s n =
    if leb s.min_places n
    then (50 + 30, sufficient_places n)
    else if leb 3 n
    then (50 + 10, moderate_places n)
    else (0, too_few_places n)

abbrev pub by_days : Settings → ℤ → ℕ × Reason
by_days s d = if leb_ℤ (pos s.min_days) d then (10, multi_day d) else (5, single_day_ok)

abbrev pub by_complexity : ℕ → ℕ × List Reason
by_complexity score =
    if leb 500 score
    then (10, high_complexity score ∷ [])
    else if leb 300 score
    then (5, medium_complexity score ∷ [])
    else (0, [])

abbrev pub conclude : ℕ → List Reason → Choice
conclude confidence reasons =
    if leb 70 confidence
    then record {
      use_ortools = true;
      confidence = confidence;
      reasons = reasons ++ high_confidence_ortools ∷ [];
    }
    else if leb 50 confidence
    then record {
      use_ortools = true;
      confidence = confidence;
      reasons = reasons ++ medium_confidence_ortools ∷ [];
    }
    else record {
      use_ortools = false;
      confidence = max 10 confidence;
      reasons = reasons ++ low_confidence_fallback_legacy ∷ [];
    }

abbrev pub weigh : Settings → ItineraryComplexity → Choice
weigh s c =
    let (p, places) = by_places s c.places_count in
    let (d, days) = by_days s c.days_count in
    let (x, score) = by_complexity c.overall_score in conclude (p + d + x) (places ∷ days ∷ score)

unfoldable pub choose : Settings → ItineraryComplexity → Bool → FeatureFlags → GeoAnalysis → Choice
choose s c healthy flags geo =
    if not flags.enabled
    then refuse (feature_disabled ∷ [])
    else if not flags.user_eligible
    then refuse (user_not_in_rollout_percentage ∷ [])
    else if not flags.geo_eligible
    then refuse (geography_not_eligible ∷ [])
    else if not healthy
    then refuse (ortools_service_unhealthy ∷ [])
    else if not geo.appropriate_for_ortools
    then refuse geo.reasons
    else weigh s c

-- The expected success rate is in tenths.
unfoldable pub make_decision :
    Settings → ItineraryComplexity → Bool → FeatureFlags → GeoAnalysis → DecisionResult
unfolding choose
make_decision s c healthy flags geo =
    let choice = choose s c healthy flags geo in
    record {
      use_ortools = choice.use_ortools;
      confidence_score = choice.confidence;
      reasons = choice.reasons;
      complexity_score = c.overall_score;
      estimated_execution_time_ms = if choice.use_ortools then s.expected_exec_time_ms else 8500;
      expected_success_rate = if choice.use_ortools then 10 else 1;
      fallback_strategy = if choice.use_ortools then ortools_with_legacy_fallback else legacy_only;
    }
