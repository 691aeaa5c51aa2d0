-- ===== src/Monitoring/Summary.antt =====
-- The reports of services/ortools_monitoring.py: `get_performance_summary`,
-- `get_benchmark_comparison` and `_generate_recommendation`. Rates and averages are fractions; the
-- differences and the quotient of a rate or a time and its baseline are left out.
use goveling_ml.Prelude.{
  ℕ, ◌-◌, ◌*◌, Bool, true, false, ◌&&◌, Option, none, some, List, [], ◌∷◌, leb, if◌then◌else◌,
  length, filter_by, count_by,
}
use goveling_ml.Monitoring.State.{
  OptimizationStatus, OptimizationMetric, Fraction, zero_fraction, AlertType, Monitor,
}
use goveling_ml.Monitoring.Windows.{
  is_success, times, mean, median, calculate_percentile, success_rate_of, by_method,
}

pub record MethodPerformance : Type 0 where
  pub requests : ℕ
  pub success_rate : Fraction
  pub avg_time_ms : Fraction

-- `active_alerts` is the set of the keys.
pub record Summary : Type 0 where
  pub total_requests : ℕ
  pub successes : ℕ
  pub failures : ℕ
  pub timeouts : ℕ
  pub errors : ℕ
  pub avg_execution_time : Fraction
  pub median_execution_time : Fraction
  pub p95_execution_time : ℕ
  pub p99_execution_time : ℕ
  pub ortools : MethodPerformance
  pub legacy : MethodPerformance
  pub active_alerts : AlertType → Option ℕ
  pub alert_count : ℕ

abbrev pub is_failure : OptimizationMetric → Bool
is_failure m = elim m.status [ OptimizationStatus.failure ↦ true | _ ↦ false ]

abbrev pub is_timeout : OptimizationMetric → Bool
is_timeout m = elim m.status [ OptimizationStatus.timeout ↦ true | _ ↦ false ]

abbrev pub is_error : OptimizationMetric → Bool
is_error m = elim m.status [ OptimizationStatus.error ↦ true | _ ↦ false ]

abbrev pub average_or_zero : List ℕ → Fraction
average_or_zero [] = zero_fraction
average_or_zero (t ∷ ts) = mean (t ∷ ts)

abbrev pub performance_of : List OptimizationMetric → MethodPerformance
performance_of ms = record {
  requests = length ms;
  success_rate = success_rate_of ms zero_fraction;
  avg_time_ms = average_or_zero (times ms);
}

abbrev pub summarize : Monitor → ℕ → List OptimizationMetric → Option Summary
summarize m cutoff_time [] = none
summarize m cutoff_time (x ∷ xs) =
    let recent : List OptimizationMetric = x ∷ xs in
    some (record {
      total_requests = length recent;
      successes = count_by is_success recent;
      failures = count_by is_failure recent;
      timeouts = count_by is_timeout recent;
      errors = count_by is_error recent;
      avg_execution_time = average_or_zero (times recent);
      median_execution_time = median (times recent);
      p95_execution_time = calculate_percentile (times recent) 95;
      p99_execution_time = calculate_percentile (times recent) 99;
      ortools = performance_of (by_method "ortools" recent);
      legacy = performance_of (by_method "legacy" recent);
      active_alerts = m.active_alerts;
      alert_count = count_by (λ a. leb cutoff_time a.timestamp) m.alert_history;
    })

abbrev pub cutoff : ℕ → ℕ → ℕ
cutoff now hours = now - hours * 3600000

unfoldable pub get_performance_summary : ℕ → ℕ → Monitor → Option Summary
unfolding is_success mean median calculate_percentile success_rate_of
get_performance_summary now hours m =
    summarize m (cutoff now hours) (filter_by (λ x. leb (cutoff now hours) x.timestamp) m.metrics)

-- A rate is at least a number of hundredths; an average is at most a number.
abbrev pub at_least : ℕ → Fraction → Bool
at_least hundredths f = leb (hundredths * f.den) (f.num * 100)

abbrev pub at_most : ℕ → Fraction → Bool
at_most bound f = leb f.num (bound * f.den)

pub data OrtoolsStatus : Type 0 where
  meeting_expectations below_expectations : OrtoolsStatus

pub data LegacyStatus : Type 0 where
  as_expected unexpectedly_working : LegacyStatus

pub data Recommendation : Type 0 where
  continue monitor_times degraded critical : Recommendation

abbrev pub generate_recommendation : MethodPerformance → Recommendation
generate_recommendation p =
    if at_least 95 p.success_rate && at_most 3000 p.avg_time_ms
    then continue
    else if at_least 90 p.success_rate
    then monitor_times
    else if at_least 80 p.success_rate
    then degraded
    else critical

pub record Comparison : Type 0 where
  pub ortools : MethodPerformance
  pub ortools_status : OrtoolsStatus
  pub legacy : MethodPerformance
  pub legacy_status : LegacyStatus
  pub recommendation : Recommendation

abbrev pub compare_with_baselines : Option Summary → Option Comparison
compare_with_baselines none = none
compare_with_baselines (some s) = some (record {
  ortools = s.ortools;
  ortools_status =
      if at_least 95 s.ortools.success_rate && at_most 3000 s.ortools.avg_time_ms
      then meeting_expectations
      else below_expectations;
  legacy = s.legacy;
  legacy_status =
      if leb (s.legacy.success_rate.num * 100) (10 * s.legacy.success_rate.den)
      then as_expected
      else unexpectedly_working;
  recommendation = generate_recommendation s.ortools;
})

unfoldable pub get_benchmark_comparison : ℕ → Monitor → Option Comparison
unfolding get_performance_summary
get_benchmark_comparison now m = compare_with_baselines (get_performance_summary now 24 m)
