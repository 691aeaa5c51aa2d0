-- ===== src/Monitoring/Counting.antt =====
-- The counters of the current window and the size of the metrics (services/ortools_monitoring.py).
use Prim.Native.String.{String}
use goveling_ml.Prelude.{
  ℕ, ◌+◌, ◌≤◌, ◌≡◌, refl, inl, inr, List, [], ◌∷◌, arith, length, length-append,
}
use goveling_ml.Prelude.Exceptions.{Result, ok, err}
use goveling_ml.Monitoring.State.{OptimizationMetric, PerformanceWindow, Monitor, Clock}
use goveling_ml.Monitoring.Windows.{
  append_metric, update_current_window, create_new_window, check_window_rotation, count_method,
}
use goveling_ml.Monitoring.Alerts.{check_alerts}
use goveling_ml.Monitoring.Frame.{check_alerts-SameWindows, Rotates, check_window_rotation-Rotates}
use goveling_ml.Monitoring.Recording.{Request, stamp, store, then_check, record_optimization}

-- Every request of the window has one status and one method.
abbrev pub IsCounted : PerformanceWindow → Type 0
IsCounted w =
    (w.total_requests ≡ w.success_count + w.failure_count + w.timeout_count + w.error_count)
    × (w.total_requests ≡ w.ortools_requests + w.legacy_requests)

pub record IsConsistent (m : Monitor) : Type 0 where
  pub counted : IsCounted m.current_window
  pub bounded : length m.metrics ≤ m.max_metrics

count_method-IsCounted :
    (method : String) (w : PerformanceWindow)
    → w.total_requests ≡ w.success_count + w.failure_count + w.timeout_count + w.error_count
    → w.total_requests ≡ w.ortools_requests + w.legacy_requests + 1
    → IsCounted (count_method method w)
count_method-IsCounted method w h k = ground arith

update_current_window-IsCounted :
    (w : PerformanceWindow) (m : OptimizationMetric)
    → IsCounted w
    → IsCounted (update_current_window w m)
unfolding update_current_window
update_current_window-IsCounted w m h = ground arith

length-append_metric :
    (n : ℕ) (l : List OptimizationMetric) (m : OptimizationMetric)
    → length l ≤ n
    → length (append_metric n l m) ≤ n
unfolding append_metric
length-append_metric n [] m h = ground arith
length-append_metric n (x ∷ l) m h = ground (arith, length-append l (m ∷ []))

store-IsConsistent :
    (c : Clock) (r : Request) (m : Monitor) → IsConsistent m → IsConsistent (store c r m)
store-IsConsistent c r m h = record {
  counted = update_current_window-IsCounted m.current_window (stamp c.metric r) h.counted;
  bounded = length-append_metric m.max_metrics m.metrics (stamp c.metric r) h.bounded;
}

check_alerts-IsConsistent :
    (c : Clock) (m : Monitor) → IsConsistent m → IsConsistent (check_alerts c m)
check_alerts-IsConsistent c m h =
    let s = check_alerts-SameWindows c m in
    record { counted = rw s.window h.counted; bounded = rw (s.metrics, s.max_metrics) h.bounded }

rotation-IsConsistent :
    (c : Clock) (m : Monitor) (r : Result (Unit {0}) × Monitor)
    → Rotates c m r
    → IsConsistent m
    → IsConsistent (then_check c r).1
unfolding create_new_window
rotation-IsConsistent c m (err e, n) (_, _, same, rest) h = record {
  counted = omega (arith, same, h.counted);
  bounded = rw (rest.metrics, rest.max_metrics) h.bounded;
}
rotation-IsConsistent c m (ok u, n) (inl (_, e)) h = check_alerts-IsConsistent c n (rw e h)
rotation-IsConsistent c m (ok u, n) (inr (_, w, rest)) h = check_alerts-IsConsistent c n (record {
  counted = rw w (refl, refl);
  bounded = rw (rest.metrics, rest.max_metrics) h.bounded;
})

-- Whatever `record_optimization` does to a consistent monitor, an exception included, the current
-- window still counts each of its requests once by status and once by method, and the metrics stay
-- within `max_metrics`.
pub record_optimization-IsConsistent :
    (c : Clock) (r : Request) (m : Monitor)
    → IsConsistent m
    → IsConsistent (record_optimization c r m).1
unfolding record_optimization
record_optimization-IsConsistent c r m h =
    rotation-IsConsistent c (store c r m) (check_window_rotation c (store c r m))
      (check_window_rotation-Rotates c (store c r m)) (store-IsConsistent c r m h)
