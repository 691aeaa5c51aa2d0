-- ===== src/Monitoring/State.antt =====
-- The data of services/ortools_monitoring.py. Times are milliseconds since the epoch, so the keys
-- of an hour and of a day are quotients; averages and rates are fractions, where the program has
-- floats. A window and an alert are shared objects: `identity` names a window, and an active alert
-- is its index in the history.
use Prim.Native.String.{String}
use goveling_ml.Prelude.{ℕ, Bool, Option, List}

pub data OptimizationStatus : Type 0 where
  success failure timeout error : OptimizationStatus

pub record OptimizationMetric : Type 0 where
  pub timestamp : ℕ
  pub method : String
  pub places_count : ℕ
  pub days_count : ℕ
  pub execution_time_ms : ℕ
  pub status : OptimizationStatus
  pub city : String
  pub user_id : Option String
  pub error_message : Option String
  pub distance_calculations : ℕ
  pub constraints_applied : ℕ
  pub vehicle_constraints : Bool
  pub time_windows : Bool

pub record Fraction : Type 0 where
  pub num : ℕ
  pub den : ℕ

abbrev pub zero_fraction : Fraction
zero_fraction = record { num = 0; den = 1 }

pub record PerformanceWindow : Type 0 where
  pub identity : ℕ
  pub start_time : ℕ
  pub end_time : ℕ
  pub total_requests : ℕ
  pub success_count : ℕ
  pub failure_count : ℕ
  pub timeout_count : ℕ
  pub error_count : ℕ
  pub avg_execution_time : Fraction
  pub median_execution_time : Fraction
  pub p95_execution_time : ℕ
  pub ortools_requests : ℕ
  pub legacy_requests : ℕ
  pub ortools_success_rate : Fraction
  pub legacy_success_rate : Fraction

pub data AlertType : Type 0 where
  success_rate avg_execution_time p95_execution_time error_rate : AlertType

pub data Severity : Type 0 where
  medium high : Severity

pub data AlertStatus : Type 0 where
  active : AlertStatus
  resolved : ℕ → AlertStatus

-- The dictionary that a check returns: what it measured, and its threshold as a fraction.
pub record AlertData : Type 0 where
  pub current : Fraction
  pub threshold : Fraction
  pub severity : Severity

pub record Alert : Type 0 where
  pub alert_type : AlertType
  pub timestamp : ℕ
  pub payload : AlertData
  pub status : AlertStatus

pub record Monitor : Type 0 where
  pub window_size : ℕ
  pub max_metrics : ℕ
  pub metrics : List OptimizationMetric
  pub current_window : PerformanceWindow
  pub hourly_stats : List (ℕ × ℕ)
  pub daily_stats : List (ℕ × ℕ)
  pub active_alerts : AlertType → Option ℕ
  pub alert_history : List Alert
  pub next_identity : ℕ

-- What the successive calls of `datetime.now()` read during one `record_optimization`.
pub record Clock : Type 0 where
  pub metric : ℕ
  pub rotation : ℕ
  pub window : ℕ
  pub alert : AlertType → ℕ
