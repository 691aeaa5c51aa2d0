-- ===== src/Monitoring/Windows.antt =====
-- The windows of services/ortools_monitoring.py: counting, rotation and the statistics of a window.
use Prim.Native.String.{String}
use text.Mathlib.Text.{◌==◌ as str_eq}
use goveling_ml.Prelude.{
  ℕ, ◌+◌, ◌-◌, ◌*◌, ◌/◌, ◌%◌, Bool, true, false, ◌&&◌, List, [], ◌∷◌, ◌++◌, map, ltb, leb, ◌==◌,
  if◌then◌else◌, length, drop, get_or, filter_by, sum,
}
use goveling_ml.Prelude.Exceptions.{Result, ok, err, attribute_error}
use goveling_ml.Prelude.Sort.{sorted}
use goveling_ml.Monitoring.State.{
  OptimizationStatus, OptimizationMetric, Fraction, zero_fraction, PerformanceWindow, Monitor,
  Clock,
}

-- `deque(maxlen=max_metrics).append`
unfoldable pub append_metric :
    ℕ → List OptimizationMetric → OptimizationMetric → List OptimizationMetric
append_metric max_metrics metrics m =
    let longer = metrics ++ m ∷ [] in
    if ltb max_metrics (length longer) then drop 1 longer else longer

unfoldable pub create_new_window : ℕ → ℕ → ℕ → PerformanceWindow
create_new_window identity now window_size = record {
  identity = identity;
  start_time = now;
  end_time = now + window_size;
  total_requests = 0;
  success_count = 0;
  failure_count = 0;
  timeout_count = 0;
  error_count = 0;
  avg_execution_time = zero_fraction;
  median_execution_time = zero_fraction;
  p95_execution_time = 0;
  ortools_requests = 0;
  legacy_requests = 0;
  ortools_success_rate = zero_fraction;
  legacy_success_rate = zero_fraction;
}

abbrev pub count_status : OptimizationStatus → PerformanceWindow → PerformanceWindow
count_status OptimizationStatus.success w = record w { success_count = w.success_count + 1 }
count_status OptimizationStatus.failure w = record w { failure_count = w.failure_count + 1 }
count_status OptimizationStatus.timeout w = record w { timeout_count = w.timeout_count + 1 }
count_status OptimizationStatus.error w = record w { error_count = w.error_count + 1 }

abbrev pub count_method : String → PerformanceWindow → PerformanceWindow
count_method method w =
    if str_eq method "ortools"
    then record w { ortools_requests = w.ortools_requests + 1 }
    else record w { legacy_requests = w.legacy_requests + 1 }

unfoldable pub update_current_window : PerformanceWindow → OptimizationMetric → PerformanceWindow
update_current_window w m =
    count_method m.method
      (count_status m.status (record w { total_requests = w.total_requests + 1 }))

unfoldable pub is_success : OptimizationMetric → Bool
is_success m = elim m.status [ OptimizationStatus.success ↦ true | _ ↦ false ]

unfoldable pub in_window : PerformanceWindow → OptimizationMetric → Bool
in_window w m = leb w.start_time m.timestamp && ltb m.timestamp w.end_time

abbrev pub times : List OptimizationMetric → List ℕ
times = map (λ m. m.execution_time_ms)

-- `statistics.mean` of a list that is not empty.
unfoldable pub mean : List ℕ → Fraction
mean xs = record { num = sum xs; den = length xs }

-- `statistics.median` of a list that is not empty.
unfoldable pub median : List ℕ → Fraction
median xs =
    let s = sorted leb xs in
    let n = length xs in
    if n % 2 == 1
    then record { num = get_or s (n / 2) 0; den = 1 }
    else record { num = get_or s (n / 2 - 1) 0 + get_or s (n / 2) 0; den = 2 }

-- The percentile is in hundredths: `int(len(values) * percentile)` is a quotient.
unfoldable pub calculate_percentile : List ℕ → ℕ → ℕ
calculate_percentile [] percentile = 0
calculate_percentile (v ∷ vs) percentile =
    let values = sorted leb (v ∷ vs) in
    let index = length values * percentile / 100 in
    get_or values (if leb (length values) index then length values - 1 else index) 0

-- The rate that stays as it was where the method has no metric.
unfoldable pub success_rate_of : List OptimizationMetric → Fraction → Fraction
unfolding is_success
success_rate_of [] rate = rate
success_rate_of (m ∷ ms) rate = record {
  num = length (filter_by is_success (m ∷ ms));
  den = length (m ∷ ms);
}

abbrev pub by_method : String → List OptimizationMetric → List OptimizationMetric
by_method method = filter_by (λ m. str_eq m.method method)

unfoldable pub window_statistics : PerformanceWindow → List OptimizationMetric → PerformanceWindow
unfolding mean median calculate_percentile success_rate_of
window_statistics w ms = record w {
  avg_execution_time = mean (times ms);
  median_execution_time = median (times ms);
  p95_execution_time = calculate_percentile (times ms) 95;
  ortools_success_rate = success_rate_of (by_method "ortools" ms) w.ortools_success_rate;
  legacy_success_rate = success_rate_of (by_method "legacy" ms) w.legacy_success_rate;
}

abbrev pub has_key : ℕ → List (ℕ × ℕ) → Bool
has_key k [] = false
has_key k ((j, v) ∷ d) = if j == k then true else has_key k d

abbrev pub put : ℕ → ℕ → List (ℕ × ℕ) → List (ℕ × ℕ)
put k v [] = (k, v) ∷ []
put k v ((j, w) ∷ d) = if j == k then (k, v) ∷ d else (j, w) ∷ put k v d

abbrev pub hour_key : ℕ → ℕ
hour_key t = t / 3600000

abbrev pub day_key : ℕ → ℕ
day_key t = t / 86400000

-- The window's object is changed in place before the day is looked up. The class has no method
-- `_create_daily_aggregate`, so a day that has no entry raises.
abbrev pub aggregate :
    PerformanceWindow → Monitor → List OptimizationMetric → Result (Unit {0}) × Monitor
aggregate w m [] = (ok tt, m)
aggregate w m (x ∷ xs) =
    let m' : Monitor = record m {
      current_window = window_statistics w (x ∷ xs);
      hourly_stats = put (hour_key w.start_time) w.identity m.hourly_stats;
    } in
    if has_key (day_key w.start_time) m.daily_stats then (ok tt, m') else (err attribute_error, m')

unfoldable pub finalize_window : Monitor → Result (Unit {0}) × Monitor
unfolding in_window
finalize_window m = aggregate m.current_window m (filter_by (in_window m.current_window) m.metrics)

abbrev pub new_window : Clock → Result (Unit {0}) × Monitor → Result (Unit {0}) × Monitor
new_window c (err e, m) = (err e, m)
new_window c (ok _, m) = (
  ok tt,
  record m {
    current_window = create_new_window m.next_identity c.window m.window_size;
    next_identity = m.next_identity + 1;
  },
)

unfoldable pub check_window_rotation : Clock → Monitor → Result (Unit {0}) × Monitor
unfolding create_new_window finalize_window
check_window_rotation c m =
    if leb m.current_window.end_time c.rotation
    then new_window c (finalize_window m)
    else (ok tt, m)
