-- ===== src/Decision/Engine.antt =====
-- `should_use_ortools` of utils/ortools_decision_engine.py: the decisions kept for ten minutes, the
-- health kept for one minute, and the history. Times are milliseconds since the epoch.
use Prim.Native.String.{String}
use goveling_ml.Prelude.{
  ℕ, ◌-◌, Bool, true, false, Option, none, some, List, [], ◌∷◌, ◌++◌, ltb, if◌then◌else◌, length,
  drop,
}
use goveling_ml.Prelude.Int.{ℤ}
use goveling_ml.Prelude.Exceptions.{Result, ok, err}
use goveling_ml.Prelude.Dict.{lookup, set}
use goveling_ml.Schedule.Windows.{or_default}
use goveling_ml.Decision.{Place, Request, Settings, DecisionResult}
use goveling_ml.Decision.Complexity.{analyze_complexity}
use goveling_ml.Decision.Flags.{check_feature_flags, analyze_geography}
use goveling_ml.Decision.Choice.{make_decision}

-- What `_generate_cache_key` hashes.
pub record Factors : Type 0 where
  pub places_count : ℕ
  pub start_date : String
  pub end_date : String
  pub transport_mode : String
  pub user_id : String
  pub enable_ortools : Bool
  pub user_percentage : ℕ

unfoldable pub factors : Settings → Request → Factors
factors s r = record {
  places_count = length r.places;
  start_date = r.start_date;
  end_date = r.end_date;
  transport_mode = or_default r.transport_mode "";
  user_id = or_default r.user_id "anonymous";
  enable_ortools = s.enable_ortools;
  user_percentage = s.user_percentage;
}

pub record Tracked : Type 0 where
  pub decision : DecisionResult
  pub places_count : ℕ
  pub days_count : ℤ
  pub decision_time_ms : ℕ

pub record Engine : Type 0 where
  pub decision_cache : List (ℕ × (DecisionResult × ℕ))
  pub cache_ttl : ℕ
  pub performance_history : List Tracked
  pub last_health_check : ℕ
  pub ortools_health_status : Option Bool

unfoldable pub init : Engine
init = record {
  decision_cache = [];
  cache_ttl = 600000;
  performance_history = [];
  last_health_check = 0;
  ortools_health_status = none;
}

-- What one call reads: the clock at the lookup, at the health check and when the decision is kept,
-- how long the decision took, and how the service answers if it is asked for its health.
pub record Inputs : Type 0 where
  pub now : ℕ
  pub checked : ℕ
  pub saved : ℕ
  pub decision_time_ms : ℕ
  pub health : Result Bool

abbrev pub is_healthy : Result Bool → Bool
is_healthy (ok b) = b
is_healthy (err e) = false

unfoldable pub check_ortools_health : Inputs → Engine → Bool × Engine
check_ortools_health i e =
    if ltb (i.checked - e.last_health_check) 60000
    then (or_default e.ortools_health_status false, e)
    else (
      is_healthy i.health,
      record e {
        ortools_health_status = some (is_healthy i.health);
        last_health_check = i.checked;
      },
    )

-- Over 1000 entries only the last 500 are kept.
unfoldable pub track_decision : Tracked → List Tracked → List Tracked
track_decision t history =
    let longer = history ++ t ∷ [] in
    if ltb 1000 (length longer) then drop (length longer - 500) longer else longer

abbrev pub track_if : Bool → Tracked → Engine → Engine
track_if true t e = record e { performance_history = track_decision t e.performance_history }
track_if false t e = e

module _ (lower : String → String) (automatic_city : List Place → Option String)
    (user_hash : String → ℕ) (digest : Factors → ℕ) (s : Settings) where
  -- A decision that is made anew, with the engine after the health check.
  unfoldable pub decide : Inputs → Request → Bool × Engine → DecisionResult × Engine
  unfolding analyze_complexity check_feature_flags analyze_geography make_decision track_decision
      factors
  decide i r (healthy, e) =
      let c = analyze_complexity r in
      let d =
        make_decision s c healthy (check_feature_flags lower automatic_city user_hash s r)
          (analyze_geography s r) in
      let tracked : Tracked = record {
        decision = d;
        places_count = c.places_count;
        days_count = c.days_count;
        decision_time_ms = i.decision_time_ms;
      } in
      (
        d,
        track_if s.track_performance tracked (record e {
          decision_cache = set (digest (factors s r)) (d, i.saved) e.decision_cache;
        }),
      )

  abbrev pub answer :
      Inputs → Request → Option (DecisionResult × ℕ) → Engine → DecisionResult × Engine
  answer i r none e = decide i r (check_ortools_health i e)
  answer i r (some (d, timestamp)) e =
      if ltb (i.now - timestamp) e.cache_ttl then (d, e) else decide i r (check_ortools_health i e)

  unfoldable pub should_use_ortools : Inputs → Request → Engine → DecisionResult × Engine
  unfolding decide check_ortools_health factors
  should_use_ortools i r e = answer i r (lookup (digest (factors s r)) e.decision_cache) e

  -- Calls one after the other.
  unfoldable pub decide_all : List (Inputs × Request) → Engine → Engine
  unfolding should_use_ortools
  decide_all [] e = e
  decide_all ((i, r) ∷ calls) e = decide_all calls (should_use_ortools i r e).1
