-- ===== src/Monitoring/Rotation.antt =====
-- What happens when the current window is over (services/ortools_monitoring.py).
use goveling_ml.Prelude.{
  ℕ, ◌≤◌, ◌≡◌, ◌≢◌, refl, ap, ◌∙◌, inl, inr, true, List, [], ◌∷◌, leb, arith, filter_by,
}
use goveling_ml.Prelude.Exceptions.{Result, ok, err, attribute_error}
use goveling_ml.Monitoring.State.{OptimizationMetric, Monitor, Clock}
use goveling_ml.Monitoring.Windows.{
  update_current_window, check_window_rotation, in_window, new_window, aggregate,
}
use goveling_ml.Monitoring.Frame.{check_alerts-SameWindows, Rotates, check_window_rotation-Rotates}
use goveling_ml.Monitoring.Recording.{
  Request, store, then_check, record_optimization, record_all, init,
}

-- A metric of the window is still kept when it is finalized.
abbrev pub HasMetric : Monitor → Type 0
HasMetric m = filter_by (in_window m.current_window) m.metrics ≢ []

daily_stats-then_check :
    (c : Clock) (m : Monitor) (r : Result (Unit {0}) × Monitor)
    → Rotates c m r
    → (then_check c r).1.daily_stats ≡ m.daily_stats
daily_stats-then_check c m (err e, n) (_, _, _, rest) = rest.daily_stats
daily_stats-then_check c m (ok u, n) (inl (_, e)) =
    (check_alerts-SameWindows c n).daily_stats ∙ ap (λ (k : Monitor). k.daily_stats) e
daily_stats-then_check c m (ok u, n) (inr (_, w, rest)) =
    (check_alerts-SameWindows c n).daily_stats ∙ rest.daily_stats

daily_stats-record_all :
    (calls : List (Clock × Request)) (m : Monitor)
    → (record_all calls m).daily_stats ≡ m.daily_stats
unfolding record_all record_optimization
daily_stats-record_all [] m = refl
daily_stats-record_all ((c, r) ∷ calls) m =
    daily_stats-record_all calls (record_optimization c r m).1
    ∙ daily_stats-then_check c (store c r m) _ (check_window_rotation-Rotates c (store c r m))

aggregate_raises :
    (m : Monitor) (ms : List OptimizationMetric)
    → m.daily_stats ≡ []
    → ms ≢ []
    → ((aggregate m.current_window m ms).0 ≡ err attribute_error)
aggregate_raises m [] d h = absurd (h refl)
aggregate_raises m (x ∷ xs) d h = rw d refl

new_window_raises :
    (c : Clock) (r : Result (Unit {0}) × Monitor)
    → r.0 ≡ err attribute_error
    → (new_window c r).0 ≡ err attribute_error
new_window_raises c (err e, n) h = h
new_window_raises c (ok u, n) h = cc

due_rotation_raises :
    (c : Clock) (m : Monitor)
    → m.daily_stats ≡ []
    → m.current_window.end_time ≤ c.rotation
    → HasMetric m
    → (check_window_rotation c m).0 ≡ err attribute_error
unfolding check_window_rotation
due_rotation_raises c m d due h =
    let late : leb m.current_window.end_time c.rotation ≡ true = ground arith in
    rw late (new_window_raises c _ (aggregate_raises m _ d h))

-- A call that raises leaves the alerts and the identity and end of the current window as they were.
pub record IsStuck (m : Monitor) (result : Result (Unit {0}) × Monitor) : Type 0 where
  pub raises : result.0 ≡ err attribute_error
  pub identity : result.1.current_window.identity ≡ m.current_window.identity
  pub end_time : result.1.current_window.end_time ≡ m.current_window.end_time
  pub active_alerts : result.1.active_alerts ≡ m.active_alerts
  pub alert_history : result.1.alert_history ≡ m.alert_history

same_window-store :
    (c : Clock) (r : Request) (m : Monitor)
    → ((store c r m).current_window.identity ≡ m.current_window.identity)
      × ((store c r m).current_window.end_time ≡ m.current_window.end_time)
unfolding update_current_window
same_window-store c r m = ground arith

then_check-IsStuck :
    (c : Clock) (m : Monitor) (r : Result (Unit {0}) × Monitor)
    → Rotates c m r
    → r.0 ≡ err attribute_error
    → IsStuck m (then_check c r)
then_check-IsStuck c m (err e, n) (_, _, same, rest) raises = record {
  raises = raises;
  identity = same.0;
  end_time = same.2;
  active_alerts = rest.active_alerts;
  alert_history = rest.alert_history;
}
then_check-IsStuck c m (ok u, n) x raises = cc

-- After any calls on a new monitor, a call that finds the current window over, while a metric of
-- that window is still kept, raises AttributeError, checks no alert and does not replace the window.
pub record_optimization-IsStuck :
    (now window_size max_metrics : ℕ) (calls : List (Clock × Request)) (c : Clock) (r : Request)
    (m : Monitor)
    → m ≡ record_all calls (init now window_size max_metrics)
    → m.current_window.end_time ≤ c.rotation
    → HasMetric (store c r m)
    → IsStuck m (record_optimization c r m)
unfolding record_optimization init
record_optimization-IsStuck now size max calls c r m e due h =
    let same = same_window-store c r m in
    let none_daily : m.daily_stats ≡ [] =
      ap (λ (k : Monitor). k.daily_stats) e ∙ daily_stats-record_all calls _ in
    let s =
      then_check-IsStuck c (store c r m) (check_window_rotation c (store c r m))
        (check_window_rotation-Rotates c (store c r m))
        (due_rotation_raises c (store c r m) none_daily (omega (arith, same)) h) in
    record {
      raises = s.raises;
      identity = s.identity ∙ same.0;
      end_time = s.end_time ∙ same.1;
      active_alerts = s.active_alerts;
      alert_history = s.alert_history;
    }
