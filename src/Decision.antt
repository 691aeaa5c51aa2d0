-- ===== src/Decision.antt =====
-- `ORToolsDecisionEngine` of utils/ortools_decision_engine.py: whether a request is optimized by
-- OR-Tools or by the legacy code. A request is the dictionary with the keys that the engine reads; a
-- key that is missing is an Option, and a value that is there is not None. Scores are in hundredths.
pub mod Complexity
pub mod Flags
pub mod Choice
pub mod Engine
pub mod Scores
pub mod Exact
pub mod Reuse
pub mod Stats
use Prim.Native.String.{String}
use goveling_ml.Prelude.{ℕ, Bool, Option, List}
use goveling_ml.Prelude.Int.{ℤ}

-- Coordinates are in millionths of a degree.
pub record Place : Type 0 where
  pub lat : Option ℤ
  pub latitude : Option ℤ
  pub lon : Option ℤ
  pub longitude : Option ℤ
  pub kind : Option String
  pub place_type : Option String
  pub city : Option String
  pub locality : Option String

-- `days_between` is `(end - start).days + 1`, none where the dates cannot be read or subtracted.
-- The windows and the fixed activities are counted only.
pub record Request : Type 0 where
  pub places : List Place
  pub start_date : String
  pub end_date : String
  pub days_between : Option ℤ
  pub daily_start_hour : Option ℕ
  pub daily_end_hour : Option ℕ
  pub time_windows : ℕ
  pub fixed_activities : ℕ
  pub transport_mode : Option String
  pub user_id : Option String
  pub session_id : Option String

-- The settings that the engine reads. `allowed_cities` and `excluded_cities` are the texts, split,
-- stripped and in lower case; `restricts_cities` says that the first text is not empty.
pub record Settings : Type 0 where
  pub enable_ortools : Bool
  pub min_places : ℕ
  pub min_days : ℕ
  pub max_places : ℕ
  pub max_distance_km : ℕ
  pub restricts_cities : Bool
  pub allowed_cities : List String
  pub excluded_cities : List String
  pub user_percentage : ℕ
  pub expected_exec_time_ms : ℕ
  pub track_performance : Bool

pub data TransportComplexity : Type 0 where
  simple medium complex : TransportComplexity

pub record ItineraryComplexity : Type 0 where
  pub places_count : ℕ
  pub days_count : ℤ
  pub spread_square : ℕ
  pub semantic_diversity : ℕ
  pub time_constraints : ℕ
  pub transport_complexity : TransportComplexity
  pub overall_score : ℕ

pub data Reason : Type 0 where
  feature_disabled user_not_in_rollout_percentage geography_not_eligible : Reason
  ortools_service_unhealthy spread_too_large single_day_ok : Reason
  too_many_places sufficient_places moderate_places too_few_places : ℕ → Reason
  multi_day : ℤ → Reason
  high_complexity medium_complexity : ℕ → Reason
  high_confidence_ortools medium_confidence_ortools low_confidence_fallback_legacy : Reason

pub data Strategy : Type 0 where
  ortools_with_legacy_fallback legacy_only : Strategy

pub record DecisionResult : Type 0 where
  pub use_ortools : Bool
  pub confidence_score : ℕ
  pub reasons : List Reason
  pub complexity_score : ℕ
  pub estimated_execution_time_ms : ℕ
  pub expected_success_rate : ℕ
  pub fallback_strategy : Strategy

pub record FeatureFlags : Type 0 where
  pub enabled : Bool
  pub user_eligible : Bool
  pub geo_eligible : Bool

pub record GeoAnalysis : Type 0 where
  pub appropriate_for_ortools : Bool
  pub reasons : List Reason
