-- ===== src/Tests/Monitors.antt =====
-- The monitoring of services/ortools_monitoring.py on concrete calls.
use goveling_ml.Prelude.{ℕ, ◌≤◌, ◌≡◌, refl, false, some, none, List, [], ◌∷◌, arith}
use goveling_ml.Prelude.Exceptions.{err, attribute_error}
use goveling_ml.Prelude.Sort.{sorted}
use goveling_ml.Monitoring.State.{
  OptimizationStatus, Monitor, Clock, AlertType, success_rate, error_rate, AlertData, Severity,
}
use goveling_ml.Monitoring.Windows.{
  append_metric, update_current_window, check_window_rotation, in_window, calculate_percentile,
  create_new_window,
}
use goveling_ml.Monitoring.Alerts.{
  check_alerts, apply_check, check_success_rate_alert, check_avg_time_alert, check_p95_time_alert,
  check_error_rate_alert, new_alert,
}
use goveling_ml.Monitoring.Recording.{Request, record_optimization, record_all, init}
use goveling_ml.Monitoring.Counting.{IsConsistent, record_optimization-IsConsistent}
use goveling_ml.Monitoring.Summary.{get_performance_summary}
use goveling_ml.Monitoring.Rotation.{IsStuck, record_optimization-IsStuck}
use goveling_ml.Monitoring.TimeAlerts.{NoTimeAlert, record_all-NoTimeAlert}
use goveling_ml.Monitoring.AlertState.{IsLinked, record_all-IsLinked}
use goveling_ml.Monitoring.AlertRates.{is_some, low_success, high_error, check_alerts_exact}

program : Unit {0}
unfolding record_optimization record_all init append_metric update_current_window
    check_window_rotation check_alerts apply_check check_success_rate_alert check_avg_time_alert
    check_p95_time_alert check_error_rate_alert
program = tt

abbrev request : OptimizationStatus → ℕ → Request
request status ms = record {
  timestamp = 0;
  method = "ortools";
  places_count = 6;
  days_count = 2;
  execution_time_ms = ms;
  status = status;
  city = "santiago";
  user_id = none;
  error_message = none;
  distance_calculations = 0;
  constraints_applied = 0;
  vehicle_constraints = false;
  time_windows = false;
}

abbrev at : ℕ → Clock
at t = record { metric = t; rotation = t; window = t; alert = λ k. t }

-- Five slow requests in the first minutes, two of them failures.
abbrev slow_calls : List (Clock × Request)
slow_calls =
    (at 1000, request OptimizationStatus.success 60000)
    ∷ (at 2000, request OptimizationStatus.failure 60000)
    ∷ (at 3000, request OptimizationStatus.success 60000)
    ∷ (at 4000, request OptimizationStatus.success 60000)
    ∷ (at 5000, request OptimizationStatus.timeout 60000)
    ∷ []

abbrev monitor : Monitor
monitor = init 0 600000 10000

slow_calls_alerts :
    let m = record_all slow_calls monitor in
    (m.active_alerts success_rate ≡ some 0)
    × (m.active_alerts error_rate ≡ some 1)
    × (m.active_alerts AlertType.avg_execution_time ≡ none)
    × (m.current_window.success_count ≡ 3)
unfolding program
slow_calls_alerts = (refl, refl, refl, refl)

-- A call after the end of the window raises, and so does every later one.
rotation_raises :
    (record_optimization
      (at 600000)
      (request OptimizationStatus.success 100)
      (record_all slow_calls monitor)).0
    ≡ err attribute_error
unfolding program in_window
rotation_raises = refl

percentile_runs : calculate_percentile (5 ∷ 1 ∷ 9 ∷ 7 ∷ []) 50 ≡ 7
unfolding calculate_percentile sorted
percentile_runs = refl

record_optimization-IsConsistent_example :
    IsConsistent (record_optimization (at 1000) (request OptimizationStatus.error 5) monitor).1
unfolding init create_new_window
record_optimization-IsConsistent_example =
    record_optimization-IsConsistent (at 1000) (request OptimizationStatus.error 5) monitor
      (record { counted = (refl, refl); bounded = omega arith })

abbrev later : Monitor
later = record_all slow_calls monitor

record_optimization-IsStuck_example :
    IsStuck later (record_optimization (at 600000) (request OptimizationStatus.success 100) later)
unfolding program in_window
record_optimization-IsStuck_example =
    record_optimization-IsStuck 0 600000 10000 slow_calls (at 600000)
      (request OptimizationStatus.success 100) later refl (omega arith) (λ e. cc)

record_all-NoTimeAlert_example : NoTimeAlert (record_all slow_calls monitor)
record_all-NoTimeAlert_example = record_all-NoTimeAlert 0 600000 10000 slow_calls (omega arith)

record_all-IsLinked_example : IsLinked (record_all slow_calls monitor)
record_all-IsLinked_example = record_all-IsLinked 0 600000 10000 slow_calls

five_requests : 5 ≤ later.current_window.total_requests
unfolding program
five_requests = omega arith

check_alerts_exact_example :
    (is_some ((check_alerts (at 6000) later).active_alerts success_rate)
      ≡ low_success later.current_window)
    × (is_some ((check_alerts (at 6000) later).active_alerts error_rate)
        ≡ high_error later.current_window)
check_alerts_exact_example = check_alerts_exact (at 6000) later five_requests

abbrev low : AlertData
low = record {
  current = record { num = 3; den = 5 };
  threshold = record { num = 95; den = 100 };
  severity = Severity.high;
}

abbrev alarmed : Monitor
alarmed = record monitor {
  active_alerts = λ k. some 0;
  alert_history = new_alert 5000 success_rate low ∷ [];
}

no_report : get_performance_summary 0 24 (record later { metrics = [] }) ≡ none
unfolding get_performance_summary
no_report = refl
