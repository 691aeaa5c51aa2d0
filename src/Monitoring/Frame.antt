-- ===== src/Monitoring/Frame.antt =====
-- What the parts of `record_optimization` leave alone (services/ortools_monitoring.py).
use goveling_ml.Prelude.{
  ℕ, ◌≤◌, ◌<◌, ◌≡◌, refl, ◌∙◌, ◌⊎◌, inl, inr, Option, none, some, List, [], ◌∷◌, ltb, leb, arith,
  Bool-cases, Option-cases, filter_by,
}
use goveling_ml.Prelude.Exceptions.{Result, ok, err, attribute_error}
use goveling_ml.Monitoring.State.{
  OptimizationMetric, PerformanceWindow, Monitor, Clock, AlertType, AlertData, success_rate,
  avg_execution_time, p95_execution_time, error_rate,
}
use goveling_ml.Monitoring.Windows.{
  check_window_rotation, aggregate, in_window, window_statistics, create_new_window, has_key,
  day_key, new_window,
}
use goveling_ml.Monitoring.Alerts.{check_alerts, apply_check}

-- The alerting system changes nothing but alerts.
pub record SameWindows (m n : Monitor) : Type 0 where
  pub window : n.current_window ≡ m.current_window
  pub metrics : n.metrics ≡ m.metrics
  pub max_metrics : n.max_metrics ≡ m.max_metrics
  pub daily_stats : n.daily_stats ≡ m.daily_stats
  pub window_size : n.window_size ≡ m.window_size
  pub next_identity : n.next_identity ≡ m.next_identity

apply_check-SameWindows :
    (now : ℕ) (t : AlertType) (r : Option AlertData) (m : Monitor)
    → SameWindows m (apply_check now t r m)
unfolding apply_check
apply_check-SameWindows now t none m = elim (Option-cases (m.active_alerts t)) [
  | inl quiet ↦ ground arith
  | inr (i, e) ↦ ground arith
]
apply_check-SameWindows now t (some d) m = record {
  window = refl;
  metrics = refl;
  max_metrics = refl;
  daily_stats = refl;
  window_size = refl;
  next_identity = refl;
}

SameWindows-refl : (m : Monitor) → SameWindows m m
SameWindows-refl m = record {
  window = refl;
  metrics = refl;
  max_metrics = refl;
  daily_stats = refl;
  window_size = refl;
  next_identity = refl;
}

SameWindows-trans : {l m n : Monitor} → SameWindows l m → SameWindows m n → SameWindows l n
SameWindows-trans p q = record {
  window = q.window ∙ p.window;
  metrics = q.metrics ∙ p.metrics;
  max_metrics = q.max_metrics ∙ p.max_metrics;
  daily_stats = q.daily_stats ∙ p.daily_stats;
  window_size = q.window_size ∙ p.window_size;
  next_identity = q.next_identity ∙ p.next_identity;
}

pub check_alerts-SameWindows : (c : Clock) (m : Monitor) → SameWindows m (check_alerts c m)
unfolding check_alerts
check_alerts-SameWindows c m = elim (Bool-cases (ltb m.current_window.total_requests 5)) [
  | inl few ↦ rw few (SameWindows-refl m)
  | inr many ↦ rw many (
      SameWindows-trans
        (SameWindows-trans (apply_check-SameWindows _ success_rate _ m)
          (apply_check-SameWindows _ avg_execution_time _ _))
        (SameWindows-trans (apply_check-SameWindows _ p95_execution_time _ _)
          (apply_check-SameWindows _ error_rate _ _)))
]

-- The counts of a window, which its statistics leave alone.
abbrev pub SameCounts : PerformanceWindow → PerformanceWindow → Type 0
SameCounts v w =
    (w.identity ≡ v.identity)
    × (w.start_time ≡ v.start_time)
    × (w.end_time ≡ v.end_time)
    × (w.total_requests ≡ v.total_requests)
    × (w.success_count ≡ v.success_count)
    × (w.failure_count ≡ v.failure_count)
    × (w.timeout_count ≡ v.timeout_count)
    × (w.error_count ≡ v.error_count)
    × (w.ortools_requests ≡ v.ortools_requests)
    × (w.legacy_requests ≡ v.legacy_requests)

pub window_statistics-SameCounts :
    (w : PerformanceWindow) (ms : List OptimizationMetric) → SameCounts w (window_statistics w ms)
unfolding window_statistics
window_statistics-SameCounts w ms = (refl, refl, refl, refl, refl, refl, refl, refl, refl, refl)

-- What a rotation leaves alone.
pub record SameRest (m n : Monitor) : Type 0 where
  pub metrics : n.metrics ≡ m.metrics
  pub max_metrics : n.max_metrics ≡ m.max_metrics
  pub daily_stats : n.daily_stats ≡ m.daily_stats
  pub window_size : n.window_size ≡ m.window_size
  pub active_alerts : n.active_alerts ≡ m.active_alerts
  pub alert_history : n.alert_history ≡ m.alert_history

-- How a rotation can end: not due, carried out, or due and raising.
abbrev pub Rotates : Clock → Monitor → Result (Unit {0}) × Monitor → Type 0
Rotates c m (ok _, n) =
    ((c.rotation < m.current_window.end_time) × (n ≡ m))
    ⊎ ((m.current_window.end_time ≤ c.rotation)
        × (n.current_window ≡ create_new_window m.next_identity c.window m.window_size)
        × SameRest m n)
Rotates c m (err e, n) =
    (e ≡ attribute_error)
    × (m.current_window.end_time ≤ c.rotation)
    × SameCounts m.current_window n.current_window
    × SameRest m n

SameRest-update :
    (m : Monitor) (w : PerformanceWindow) (hours : List (ℕ × ℕ)) (next : ℕ)
    → SameRest m (record m { current_window = w; hourly_stats = hours; next_identity = next })
SameRest-update m w hours next = record {
  metrics = refl;
  max_metrics = refl;
  daily_stats = refl;
  window_size = refl;
  active_alerts = refl;
  alert_history = refl;
}

new_window-Rotates :
    (c : Clock) (m : Monitor) (ms : List OptimizationMetric)
    → m.current_window.end_time ≤ c.rotation
    → Rotates c m (new_window c (aggregate m.current_window m ms))
new_window-Rotates c m [] due = inr (due, refl, SameRest-update m _ _ _)
new_window-Rotates c m (x ∷ xs) due =
    elim (Bool-cases (has_key (day_key m.current_window.start_time) m.daily_stats)) [
      | inl known ↦ rw known (inr (due, refl, SameRest-update m _ _ _))
      | inr unknown ↦ rw unknown (
        refl,
        due,
        window_statistics-SameCounts m.current_window (x ∷ xs),
        SameRest-update m _ _ _,
      )
    ]

pub check_window_rotation-Rotates :
    (c : Clock) (m : Monitor) → Rotates c m (check_window_rotation c m)
unfolding check_window_rotation
check_window_rotation-Rotates c m = elim (Bool-cases (leb m.current_window.end_time c.rotation)) [
  | inl due ↦
      rw due
        (new_window-Rotates c m (filter_by (in_window m.current_window) m.metrics) (ground arith))
  | inr early ↦ rw early (inl (ground arith, refl))
]
