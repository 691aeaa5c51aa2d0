-- ===== src/Monitoring/Alerts.antt =====
-- The alerting system of services/ortools_monitoring.py. A threshold that the program writes as a
-- float is a fraction, and a comparison with it is done without rounding.
use goveling_ml.Prelude.{
  ℕ, zero, suc, ◌+◌, ◌*◌, Bool, Option, none, some, List, [], ◌∷◌, ◌++◌, ltb, ◌==◌, if◌then◌else◌,
  length,
}
use goveling_ml.Monitoring.State.{
  Fraction, PerformanceWindow, AlertType, success_rate, avg_execution_time, p95_execution_time,
  error_rate, Severity, AlertStatus, AlertData, Alert, Monitor, Clock,
}

abbrev pub fraction_lt : Fraction → Fraction → Bool
fraction_lt p q = ltb (p.num * q.den) (q.num * p.den)

abbrev pub success_rate_threshold : Fraction
success_rate_threshold = record { num = 95; den = 100 }

abbrev pub avg_time_threshold : Fraction
avg_time_threshold = record { num = 5000; den = 1 }

abbrev pub p95_time_threshold : Fraction
p95_time_threshold = record { num = 10000; den = 1 }

abbrev pub error_rate_threshold : Fraction
error_rate_threshold = record { num = 5; den = 100 }

unfoldable pub check_success_rate_alert : PerformanceWindow → Option AlertData
check_success_rate_alert w =
    let rate : Fraction = record { num = w.success_count; den = w.total_requests } in
    if fraction_lt rate success_rate_threshold
    then some (record {
      current = rate;
      threshold = success_rate_threshold;
      severity =
          if fraction_lt rate (record { num = 8; den = 10 })
          then Severity.high
          else Severity.medium;
    })
    else none

unfoldable pub check_avg_time_alert : PerformanceWindow → Option AlertData
check_avg_time_alert w =
    if fraction_lt avg_time_threshold w.avg_execution_time
    then some (record {
      current = w.avg_execution_time;
      threshold = avg_time_threshold;
      severity = Severity.medium;
    })
    else none

unfoldable pub check_p95_time_alert : PerformanceWindow → Option AlertData
check_p95_time_alert w =
    let p95 : Fraction = record { num = w.p95_execution_time; den = 1 } in
    if fraction_lt p95_time_threshold p95
    then some (record { current = p95; threshold = p95_time_threshold; severity = Severity.high })
    else none

unfoldable pub check_error_rate_alert : PerformanceWindow → Option AlertData
check_error_rate_alert w =
    let rate : Fraction = record {
      num = w.error_count + w.timeout_count;
      den = w.total_requests;
    } in
    if fraction_lt error_rate_threshold rate
    then some
        (record { current = rate; threshold = error_rate_threshold; severity = Severity.high })
    else none

-- The constructors in order, so that alert types are compared as numbers.
abbrev pub code : AlertType → ℕ
code success_rate = 0
code avg_execution_time = 1
code p95_execution_time = 2
code error_rate = 3

abbrev pub assign : AlertType → Option ℕ → (AlertType → Option ℕ) → AlertType → Option ℕ
assign t v alerts u = if code u == code t then v else alerts u

abbrev pub new_alert : ℕ → AlertType → AlertData → Alert
new_alert now t d = record {
  alert_type = t;
  timestamp = now;
  payload = d;
  status = AlertStatus.active;
}

unfoldable pub trigger_alert : ℕ → AlertType → AlertData → Monitor → Monitor
trigger_alert now t d m = record m {
  active_alerts = assign t (some (length m.alert_history)) m.active_alerts;
  alert_history = m.alert_history ++ new_alert now t d ∷ [];
}

abbrev pub resolve_at : ℕ → ℕ → List Alert → List Alert
resolve_at now i [] = []
resolve_at now zero (a ∷ as_) = record a { status = AlertStatus.resolved now } ∷ as_
resolve_at now (suc i) (a ∷ as_) = a ∷ resolve_at now i as_

abbrev pub clear_alert_at : ℕ → AlertType → Monitor → Option ℕ → Monitor
clear_alert_at now t m none = m
clear_alert_at now t m (some i) = record m {
  active_alerts = assign t none m.active_alerts;
  alert_history = resolve_at now i m.alert_history;
}

unfoldable pub clear_alert : ℕ → AlertType → Monitor → Monitor
clear_alert now t m = clear_alert_at now t m (m.active_alerts t)

abbrev pub apply_check_to : ℕ → AlertType → Option AlertData → Monitor → Monitor
apply_check_to now t none m = clear_alert now t m
apply_check_to now t (some d) m = trigger_alert now t d m

unfoldable pub apply_check : ℕ → AlertType → Option AlertData → Monitor → Monitor
unfolding trigger_alert clear_alert
apply_check now t r m = apply_check_to now t r m

-- The four checks look at the one window that was current when `_check_alerts` began.
unfoldable pub check_alerts : Clock → Monitor → Monitor
check_alerts c m =
    let w = m.current_window in
    if ltb w.total_requests 5
    then m
    else (let m1 = apply_check (c.alert success_rate) success_rate (check_success_rate_alert w) m in
        let m2 =
          apply_check (c.alert avg_execution_time) avg_execution_time (check_avg_time_alert w) m1 in
        let m3 =
          apply_check (c.alert p95_execution_time) p95_execution_time (check_p95_time_alert w) m2 in
        apply_check (c.alert error_rate) error_rate (check_error_rate_alert w) m3)
