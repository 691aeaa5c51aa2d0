-- ===== src/Monitoring/TimeAlerts.antt =====
-- The alerts on execution times (services/ortools_monitoring.py).
use goveling_ml.Prelude.{
  ℕ, zero, suc, ◌≤◌, ◌≡◌, refl, ◌⊎◌, inl, inr, Bool, true, false, Option, none, some, List, [], ◌∷◌,
  ◌++◌, ltb, arith, Bool-cases, Option-cases, All,
}
use goveling_ml.Prelude.Exceptions.{Result, ok, err}
use goveling_ml.Monitoring.State.{
  OptimizationMetric, PerformanceWindow, Monitor, Clock, AlertType, AlertData, Alert, success_rate,
  avg_execution_time, p95_execution_time, error_rate, zero_fraction,
}
use goveling_ml.Monitoring.Windows.{update_current_window, create_new_window, check_window_rotation}
use goveling_ml.Monitoring.Alerts.{
  check_alerts, apply_check, resolve_at, check_avg_time_alert, check_p95_time_alert,
  check_success_rate_alert,
}
use goveling_ml.Monitoring.Frame.{
  check_alerts-SameWindows, SameRest, Rotates, check_window_rotation-Rotates,
}
use goveling_ml.Monitoring.Recording.{
  Request, stamp, store, then_check, record_optimization, record_all, init,
}

abbrev pub is_time_alert : AlertType → Bool
is_time_alert success_rate = false
is_time_alert avg_execution_time = true
is_time_alert p95_execution_time = true
is_time_alert error_rate = false

abbrev pub IsOther : Alert → Type 0
IsOther a = is_time_alert a.alert_type ≡ false

-- No alert on a time is active or was ever raised.
pub record NoTimeAlert (m : Monitor) : Type 0 where
  pub avg : m.active_alerts avg_execution_time ≡ none
  pub p95 : m.active_alerts p95_execution_time ≡ none
  pub history : All IsOther m.alert_history

All-append : (l : List Alert) (a : Alert) → All IsOther l → IsOther a → All IsOther (l ++ a ∷ [])
All-append [] a h k = (k, tt)
All-append (x ∷ l) a h k = (h.0, All-append l a h.1 k)

All-resolve_at : (now i : ℕ) (l : List Alert) → All IsOther l → All IsOther (resolve_at now i l)
All-resolve_at now i [] h = h
All-resolve_at now zero (x ∷ l) h = h
All-resolve_at now (suc i) (x ∷ l) h = (h.0, All-resolve_at now i l h.1)

other_check-NoTimeAlert :
    (now : ℕ) (t : AlertType) (r : Option AlertData) (m : Monitor)
    → is_time_alert t ≡ false
    → NoTimeAlert m
    → NoTimeAlert (apply_check now t r m)
unfolding apply_check
other_check-NoTimeAlert now t (some d) m o h = record {
  avg = ground (arith, h.avg);
  p95 = ground (arith, h.p95);
  history = All-append m.alert_history _ h.history o;
}
other_check-NoTimeAlert now t none m o h = elim (Option-cases (m.active_alerts t)) [
  | inl quiet ↦ rw quiet h
  | inr (i, e) ↦ rw e (record {
    avg = ground (arith, h.avg);
    p95 = ground (arith, h.p95);
    history = All-resolve_at now i m.alert_history h.history;
  })
]

time_check-NoTimeAlert :
    (now : ℕ) (t : AlertType) (m : Monitor)
    → is_time_alert t ≡ true
    → NoTimeAlert m
    → apply_check now t none m ≡ m
unfolding apply_check
time_check-NoTimeAlert now t m o h = ground (arith, h.avg, h.p95)

-- The statistics of the window are still those of a new window.
abbrev pub IsFresh : PerformanceWindow → Type 0
IsFresh w = (w.avg_execution_time ≡ zero_fraction) × (w.p95_execution_time ≡ 0)

fresh_checks :
    (w : PerformanceWindow)
    → IsFresh w
    → (check_avg_time_alert w ≡ none) × (check_p95_time_alert w ≡ none)
unfolding check_avg_time_alert check_p95_time_alert
fresh_checks w (a, p) = (rw a refl, rw p refl)

check_alerts-NoTimeAlert :
    (c : Clock) (m : Monitor)
    → IsFresh m.current_window
    → NoTimeAlert m
    → NoTimeAlert (check_alerts c m)
unfolding check_alerts
check_alerts-NoTimeAlert c m f h = elim (Bool-cases (ltb m.current_window.total_requests 5)) [
  | inl few ↦ rw few h
  | inr many ↦
      (let (a, p) = fresh_checks m.current_window f in
        let h1 =
          other_check-NoTimeAlert _ success_rate (check_success_rate_alert m.current_window) m refl
            h in
        let m1 =
          apply_check (c.alert success_rate) success_rate
            (check_success_rate_alert m.current_window) m in
        rw
          (
            many,
            a,
            p,
            time_check-NoTimeAlert (c.alert avg_execution_time) avg_execution_time m1 refl h1,
            time_check-NoTimeAlert (c.alert p95_execution_time) p95_execution_time m1 refl h1,
          )
          (other_check-NoTimeAlert _ error_rate _ _ refl h1))
]

-- At the time `now`, the window is fresh or over.
pub record IsQuiet (now : ℕ) (m : Monitor) : Type 0 where
  pub window : IsFresh m.current_window ⊎ (m.current_window.end_time ≤ now)
  pub alerts : NoTimeAlert m

-- The clock does not go back from one call to the next.
abbrev pub IsMonotone : ℕ → List (Clock × Request) → Type 0
IsMonotone now [] = Unit
IsMonotone now ((c, r) ∷ calls) = (now ≤ c.rotation) × IsMonotone c.rotation calls

SameRest-NoTimeAlert : {m n : Monitor} → SameRest m n → NoTimeAlert m → NoTimeAlert n
SameRest-NoTimeAlert rest h = record {
  avg = rw rest.active_alerts h.avg;
  p95 = rw rest.active_alerts h.p95;
  history = rw rest.alert_history h.history;
}

check_alerts-IsQuiet :
    {now : ℕ} (c : Clock) (m : Monitor)
    → IsFresh m.current_window
    → NoTimeAlert m
    → IsQuiet now (check_alerts c m)
check_alerts-IsQuiet c m f h = record {
  window = inl (rw (check_alerts-SameWindows c m).window f);
  alerts = check_alerts-NoTimeAlert c m f h;
}

new_window-IsFresh : (identity now size : ℕ) → IsFresh (create_new_window identity now size)
unfolding create_new_window
new_window-IsFresh identity now size = (refl, refl)

same_times-update :
    (now : ℕ) (w : PerformanceWindow) (m : OptimizationMetric)
    → IsFresh w ⊎ (w.end_time ≤ now)
    → IsFresh (update_current_window w m) ⊎ ((update_current_window w m).end_time ≤ now)
unfolding update_current_window
same_times-update now w m h = ground arith

then_check-IsQuiet :
    (now : ℕ) (c : Clock) (m : Monitor) (r : Result (Unit {0}) × Monitor)
    → now ≤ c.rotation
    → Rotates c m r
    → IsQuiet now m
    → IsQuiet c.rotation (then_check c r).1
then_check-IsQuiet now c m (err e, n) le (_, due, same, rest) h = record {
  window = inr (omega (arith, same.2));
  alerts = SameRest-NoTimeAlert rest h.alerts;
}
then_check-IsQuiet now c m (ok u, n) le (inl (early, e)) h =
    let fresh : IsFresh n.current_window = elim h.window [
      | inl f ↦ rw e f
      | inr over ↦ absurd (omega arith)
    ] in
    check_alerts-IsQuiet c n fresh (rw e h.alerts)
then_check-IsQuiet now c m (ok u, n) le (inr (_, w, rest)) h =
    check_alerts-IsQuiet c n (rw w (new_window-IsFresh _ _ _)) (SameRest-NoTimeAlert rest h.alerts)

store-IsQuiet :
    (now : ℕ) (c : Clock) (r : Request) (m : Monitor) → IsQuiet now m → IsQuiet now (store c r m)
store-IsQuiet now c r m h = record {
  window = same_times-update now m.current_window (stamp c.metric r) h.window;
  alerts = record { avg = h.alerts.avg; p95 = h.alerts.p95; history = h.alerts.history };
}

record_all-IsQuiet :
    (now : ℕ) (calls : List (Clock × Request)) (m : Monitor)
    → IsMonotone now calls
    → IsQuiet now m
    → NoTimeAlert (record_all calls m)
unfolding record_all record_optimization
record_all-IsQuiet now [] m s h = h.alerts
record_all-IsQuiet now ((c, r) ∷ calls) m s h =
    record_all-IsQuiet c.rotation calls (record_optimization c r m).1 s.1 (
      then_check-IsQuiet now c (store c r m) (check_window_rotation c (store c r m)) s.0
        (check_window_rotation-Rotates c (store c r m)) (store-IsQuiet now c r m h))

-- However slow the optimizations are that a new monitor records, no alert on the average or the 95th
-- percentile of the execution times is ever raised while the clock does not go back.
pub record_all-NoTimeAlert :
    (now window_size max_metrics : ℕ) (calls : List (Clock × Request))
    → IsMonotone now calls
    → NoTimeAlert (record_all calls (init now window_size max_metrics))
unfolding init
record_all-NoTimeAlert now size max calls s =
    record_all-IsQuiet now calls _ s (record {
      window = inl (refl, refl);
      alerts = record { avg = refl; p95 = refl; history = tt };
    })
