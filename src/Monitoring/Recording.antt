-- ===== src/Monitoring/Recording.antt =====
-- `record_optimization` of services/ortools_monitoring.py, and runs of it from a new monitor.
use goveling_ml.Prelude.{ℕ, none, List, [], ◌∷◌}
use goveling_ml.Prelude.Exceptions.{Result, ok, err}
use goveling_ml.Monitoring.State.{OptimizationMetric, Monitor, Clock}
use goveling_ml.Monitoring.Windows.{
  append_metric, create_new_window, update_current_window, check_window_rotation,
}
use goveling_ml.Monitoring.Alerts.{check_alerts}

-- `ORToolsMonitoring(window_size_minutes, max_metrics)` at time `now`.
unfoldable pub init : ℕ → ℕ → ℕ → Monitor
unfolding create_new_window
init now window_size max_metrics = record {
  window_size = window_size;
  max_metrics = max_metrics;
  metrics = [];
  current_window = create_new_window 0 now window_size;
  hourly_stats = [];
  daily_stats = [];
  active_alerts = λ t. none;
  alert_history = [];
  next_identity = 1;
}

-- The arguments of `record_optimization`, its `kwargs` with their defaults filled in: a metric
-- whose time of recording is still to come.
abbrev pub Request : Type 0
Request = OptimizationMetric

abbrev pub stamp : ℕ → Request → OptimizationMetric
stamp now r = record r { timestamp = now }

abbrev pub store : Clock → Request → Monitor → Monitor
store c r m =
    let metric = stamp c.metric r in
    record m {
      metrics = append_metric m.max_metrics m.metrics metric;
      current_window = update_current_window m.current_window metric;
    }

abbrev pub then_check : Clock → Result (Unit {0}) × Monitor → Result (Unit {0}) × Monitor
then_check c (err e, m) = (err e, m)
then_check c (ok _, m) = (ok tt, check_alerts c m)

unfoldable pub record_optimization : Clock → Request → Monitor → Result (Unit {0}) × Monitor
record_optimization c r m = then_check c (check_window_rotation c (store c r m))

-- Calls one after the other; an exception ends only its own call, as the callers catch it.
unfoldable pub record_all : List (Clock × Request) → Monitor → Monitor
record_all [] m = m
record_all ((c, r) ∷ calls) m = record_all calls (record_optimization c r m).1
