-- ===== src/Monitoring/AlertState.antt =====
-- The active alerts against the history and against the current window
-- (services/ortools_monitoring.py).
use goveling_ml.Prelude.{
  ℕ, zero, suc, ◌≡◌, ◌≢◌, refl, sym, ap, ◌∙◌, inl, inr, true, Option, none, some, List, [], ◌∷◌,
  ltb, ◌==◌, arith, length, Bool-cases, Option-cases, get_elem?, get_elem?-append,
  get_elem?-append_length,
}
use goveling_ml.Prelude.Exceptions.{Result, ok, err}
use goveling_ml.Monitoring.State.{
  Monitor, Clock, AlertType, AlertData, Alert, AlertStatus, success_rate, avg_execution_time,
  p95_execution_time, error_rate,
}
use goveling_ml.Monitoring.Alerts.{check_alerts, apply_check, new_alert, code, resolve_at}
use goveling_ml.Monitoring.Frame.{SameRest, Rotates, check_window_rotation-Rotates}
use goveling_ml.Monitoring.Recording.{
  Request, store, then_check, record_optimization, record_all, init,
}

-- An active alert stands in the history, with its type and as active.
abbrev pub Stands : Alert → AlertType → Type 0
Stands a t = (a.alert_type ≡ t) × (a.status ≡ AlertStatus.active)

abbrev pub IsLinked : Monitor → Type 0
IsLinked m =
    (t : AlertType) (i : ℕ)
    → m.active_alerts t ≡ some i
    → (a : Alert) × (get_elem? m.alert_history i ≡ some a) × Stands a t

code-injective : (t u : AlertType) → (code t == code u) ≡ true → t ≡ u
code-injective t u h = ground arith

pub get_elem?-resolve_at_ne :
    (now i j : ℕ) (l : List Alert) → i ≢ j → get_elem? (resolve_at now i l) j ≡ get_elem? l j
get_elem?-resolve_at_ne now i j [] h = refl
get_elem?-resolve_at_ne now zero zero (x ∷ l) h = absurd (h refl)
get_elem?-resolve_at_ne now zero (suc j) (x ∷ l) h = refl
get_elem?-resolve_at_ne now (suc i) zero (x ∷ l) h = refl
get_elem?-resolve_at_ne now (suc i) (suc j) (x ∷ l) h =
    get_elem?-resolve_at_ne now i j l (λ e. h (ap suc e))

trigger-IsLinked :
    (now : ℕ) (t : AlertType) (d : AlertData) (m : Monitor)
    → IsLinked m
    → IsLinked (apply_check now t (some d) m)
unfolding apply_check
trigger-IsLinked now t d m h u i e = elim (Bool-cases (code u == code t)) [
  | inl same ↦
      (let place : length m.alert_history ≡ i = ground arith in
        (
          new_alert now t d,
          rw (← place) (get_elem?-append_length m.alert_history _),
          (sym (code-injective u t same), refl),
        ))
  | inr other ↦
      (let (a, at, stands) = h u i (ground arith) in
        (a, get_elem?-append m.alert_history _ i a at, stands))
]

clear-IsLinked :
    (now : ℕ) (t : AlertType) (m : Monitor) (j : ℕ)
    → m.active_alerts t ≡ some j
    → IsLinked m
    → IsLinked (apply_check now t none m)
unfolding apply_check
clear-IsLinked now t m j f h u i e = elim (Bool-cases (code u == code t)) [
  | inl same ↦ ground arith
  | inr other ↦
      (let (a, at, stands) = h u i (ground arith) in
        let (b, bt, found) = h t j f in
        let apart : j ≢ i = λ p. ground (arith, ap (get_elem? m.alert_history) p) in
        (a, rw f (get_elem?-resolve_at_ne now j i m.alert_history apart ∙ at), stands))
]

pub apply_check-IsLinked :
    (now : ℕ) (t : AlertType) (r : Option AlertData) (m : Monitor)
    → IsLinked m
    → IsLinked (apply_check now t r m)
unfolding apply_check
apply_check-IsLinked now t (some d) m h = trigger-IsLinked now t d m h
apply_check-IsLinked now t none m h = elim (Option-cases (m.active_alerts t)) [
  | inl quiet ↦ rw quiet h
  | inr (j, f) ↦ clear-IsLinked now t m j f h
]

pub check_alerts-IsLinked : (c : Clock) (m : Monitor) → IsLinked m → IsLinked (check_alerts c m)
unfolding check_alerts
check_alerts-IsLinked c m h = elim (Bool-cases (ltb m.current_window.total_requests 5)) [
  | inl few ↦ rw few h
  | inr many ↦ rw many (
      apply_check-IsLinked _ error_rate _ _ (
        apply_check-IsLinked _ p95_execution_time _ _ (
          apply_check-IsLinked _ avg_execution_time _ _
            (apply_check-IsLinked _ success_rate _ _ h))))
]

SameRest-IsLinked : {m n : Monitor} → SameRest m n → IsLinked m → IsLinked n
SameRest-IsLinked rest h t i e =
    rw rest.alert_history
      (h t i (ap (λ (f : AlertType → Option ℕ). f t) (sym rest.active_alerts) ∙ e))

then_check-IsLinked :
    (c : Clock) (m : Monitor) (r : Result (Unit {0}) × Monitor)
    → Rotates c m r
    → IsLinked m
    → IsLinked (then_check c r).1
then_check-IsLinked c m (err e, n) (_, _, _, rest) h = SameRest-IsLinked rest h
then_check-IsLinked c m (ok u, n) (inl (_, e)) h = check_alerts-IsLinked c n (rw e h)
then_check-IsLinked c m (ok u, n) (inr (_, w, rest)) h =
    check_alerts-IsLinked c n (SameRest-IsLinked rest h)

keeps-IsLinked :
    (calls : List (Clock × Request)) (m : Monitor) → IsLinked m → IsLinked (record_all calls m)
unfolding record_all record_optimization
keeps-IsLinked [] m h = h
keeps-IsLinked ((c, r) ∷ calls) m h =
    keeps-IsLinked calls (record_optimization c r m).1
      (then_check-IsLinked c (store c r m) _ (check_window_rotation-Rotates c (store c r m)) h)

-- After any calls on a new monitor, every active alert stands in the history under its type and
-- with the status ACTIVE.
pub record_all-IsLinked :
    (now window_size max_metrics : ℕ) (calls : List (Clock × Request))
    → IsLinked (record_all calls (init now window_size max_metrics))
unfolding init
record_all-IsLinked now size max calls = keeps-IsLinked calls _ (λ t i e. cc)
