-- ===== src/Monitoring/AlertRates.antt =====
-- Which alerts are active after a check of them (services/ortools_monitoring.py).
use goveling_ml.Prelude.{
  ℕ, ◌+◌, ◌*◌, ◌≤◌, ◌≡◌, ◌≢◌, refl, ap, ◌∙◌, inl, inr, Bool, true, false, Option, none, some, [],
  ◌∷◌, ltb, ◌==◌, arith, length, Option-cases, get_elem?, get_elem?-append, get_elem?-lt-length,
}
use goveling_ml.Monitoring.State.{
  PerformanceWindow, Monitor, Clock, AlertType, AlertData, Alert, AlertStatus, success_rate,
  avg_execution_time, p95_execution_time, error_rate,
}
use goveling_ml.Monitoring.Alerts.{
  check_alerts, apply_check, new_alert, code, check_avg_time_alert, check_p95_time_alert,
  check_success_rate_alert, check_error_rate_alert,
}
use goveling_ml.Monitoring.AlertState.{get_elem?-resolve_at_ne}

abbrev pub is_some : {A : Type 0} → Option A → Bool
is_some none = false
is_some (some _) = true

is_active_self :
    (now : ℕ) (t : AlertType) (r : Option AlertData) (m : Monitor)
    → is_some ((apply_check now t r m).active_alerts t) ≡ is_some r
unfolding apply_check
is_active_self now t (some d) m = ground arith
is_active_self now t none m = elim (Option-cases (m.active_alerts t)) [
  | inl quiet ↦ rw (quiet, quiet) refl
  | inr (i, e) ↦ ground arith
]

active_other :
    (now : ℕ) (t u : AlertType) (r : Option AlertData) (m : Monitor)
    → (code u == code t) ≡ false
    → (apply_check now t r m).active_alerts u ≡ m.active_alerts u
unfolding apply_check
active_other now t u (some d) m h = ground arith
active_other now t u none m h = elim (Option-cases (m.active_alerts t)) [
  | inl quiet ↦ rw quiet refl
  | inr (i, e) ↦ ground arith
]

-- The rates of a window against their thresholds.
abbrev pub low_success : PerformanceWindow → Bool
low_success w = ltb (w.success_count * 100) (95 * w.total_requests)

abbrev pub high_error : PerformanceWindow → Bool
high_error w = ltb (5 * w.total_requests) ((w.error_count + w.timeout_count) * 100)

checks_of_rates :
    (w : PerformanceWindow)
    → (is_some (check_success_rate_alert w) ≡ low_success w)
      × (is_some (check_error_rate_alert w) ≡ high_error w)
unfolding check_success_rate_alert check_error_rate_alert
checks_of_rates w = ground arith

-- Once a window has five requests, checking the alerts makes the success-rate alert active exactly
-- if less than 95 % of the window's requests succeeded, and the error-rate alert exactly if more
-- than 5 % ended in an error or a timeout, whatever was active before.
pub check_alerts_exact :
    (c : Clock) (m : Monitor)
    → 5 ≤ m.current_window.total_requests
    → (is_some ((check_alerts c m).active_alerts success_rate) ≡ low_success m.current_window)
      × (is_some ((check_alerts c m).active_alerts error_rate) ≡ high_error m.current_window)
unfolding check_alerts
check_alerts_exact c m h =
    let w = m.current_window in
    let m1 = apply_check (c.alert success_rate) success_rate (check_success_rate_alert w) m in
    let m2 =
      apply_check (c.alert avg_execution_time) avg_execution_time (check_avg_time_alert w) m1 in
    let m3 =
      apply_check (c.alert p95_execution_time) p95_execution_time (check_p95_time_alert w) m2 in
    let many : ltb w.total_requests 5 ≡ false = ground arith in
    rw many (
      ap is_some (
            active_other (c.alert error_rate) error_rate success_rate (check_error_rate_alert w) m3
              refl
            ∙ active_other (c.alert p95_execution_time) p95_execution_time success_rate
                (check_p95_time_alert w) m2 refl
            ∙ active_other (c.alert avg_execution_time) avg_execution_time success_rate
                (check_avg_time_alert w) m1 refl)
          ∙ is_active_self (c.alert success_rate) success_rate (check_success_rate_alert w) m
          ∙ (checks_of_rates w).0,
      is_active_self (c.alert error_rate) error_rate (check_error_rate_alert w) m3
          ∙ (checks_of_rates w).1,
    )

active-trigger :
    (now : ℕ) (t : AlertType) (d : AlertData) (m : Monitor)
    → (apply_check now t (some d) m).active_alerts t ≡ some (length m.alert_history)
unfolding apply_check
active-trigger now t d m = ground arith

-- An alert that is raised again while it is active is lost: when the condition is over, the older
-- entry of the history still has the status ACTIVE, though no alert of its type is active.
pub superseded_stays_active :
    (again over : ℕ) (t : AlertType) (d : AlertData) (m : Monitor) (i : ℕ) (a : Alert)
    → m.active_alerts t ≡ some i
    → get_elem? m.alert_history i ≡ some a
    → a.status ≡ AlertStatus.active
    → let n = apply_check over t none (apply_check again t (some d) m) in
      (n.active_alerts t ≡ none) × (get_elem? n.alert_history i ≡ some a)
unfolding apply_check
superseded_stays_active again over t d m i a e f s =
    let n = apply_check again t (some d) m in
    let place : n.active_alerts t ≡ some (length m.alert_history) = active-trigger again t d m in
    let apart : length m.alert_history ≢ i =
      λ p. omega (arith, get_elem?-lt-length m.alert_history i a f) in
    (
      rw place (ground arith),
      rw place (
          get_elem?-resolve_at_ne over (length m.alert_history) i n.alert_history apart
          ∙ get_elem?-append m.alert_history (new_alert again t d ∷ []) i a f),
    )
