-- ===== src/Monitoring/Reports.antt =====
-- What the reports of services/ortools_monitoring.py add up to.
use Prim.Native.String.{String}
use text.Mathlib.Text.{◌==◌ as str_eq}
use text.Mathlib.TextEquality.{eq_iff}
use mathlib.Core.Bool.{false≢true}
use goveling_ml.Prelude.{
  ℕ, ◌+◌, ◌≤◌, ◌≡◌, sym, ◌∙◌, inl, inr, Bool, true, false, Option, none, some, List, [], ◌∷◌, leb,
  arith, if◌then◌else◌, length, filter_by, count_by, Bool-cases,
}
use goveling_ml.Monitoring.State.{OptimizationStatus, OptimizationMetric, Monitor}
use goveling_ml.Monitoring.Windows.{is_success, success_rate_of, by_method}
use goveling_ml.Monitoring.Summary.{
  Summary, is_failure, is_timeout, is_error, performance_of, summarize, cutoff,
  get_performance_summary,
}

abbrev one_if : Bool → ℕ
one_if b = if b then 1 else 0

one_status :
    (m : OptimizationMetric)
    → one_if (is_success m) + one_if (is_failure m) + one_if (is_timeout m) + one_if (is_error m)
      ≡ 1
unfolding is_success
one_status m = of_status m.status
  where
    of_status :
        (s : OptimizationStatus)
        → one_if (elim s [ OptimizationStatus.success ↦ true | _ ↦ false ])
            + one_if (elim s [ OptimizationStatus.failure ↦ true | _ ↦ false ])
            + one_if (elim s [ OptimizationStatus.timeout ↦ true | _ ↦ false ])
            + one_if (elim s [ OptimizationStatus.error ↦ true | _ ↦ false ])
          ≡ 1
    of_status OptimizationStatus.success = omega arith
    of_status OptimizationStatus.failure = omega arith
    of_status OptimizationStatus.timeout = omega arith
    of_status OptimizationStatus.error = omega arith

count_statuses :
    (ms : List OptimizationMetric)
    → count_by is_success ms
        + count_by is_failure ms
        + count_by is_timeout ms
        + count_by is_error ms
      ≡ length ms
count_statuses [] = omega arith
count_statuses (m ∷ ms) = omega (arith, count_statuses ms, one_status m)

not_both : (s : String) → str_eq s "ortools" ≡ true → str_eq s "legacy" ≡ true → ⊥
not_both s o l =
    false≢true
      ((eq_iff "ortools" "legacy").1 (sym ((eq_iff s "ortools").0 o) ∙ (eq_iff s "legacy").0 l))

length-methods :
    (ms : List OptimizationMetric)
    → length (by_method "ortools" ms) + length (by_method "legacy" ms) ≤ length ms
length-methods [] = omega arith
length-methods (m ∷ ms) = elim (Bool-cases (str_eq m.method "ortools")) [
  | inl o ↦ elim (Bool-cases (str_eq m.method "legacy")) [
    | inl l ↦ absurd (not_both m.method o l)
    | inr l ↦ rw (o, l) (omega (arith, length-methods ms))
  ]
  | inr o ↦ elim (Bool-cases (str_eq m.method "legacy")) [
    | inl l ↦ rw (o, l) (omega (arith, length-methods ms))
    | inr l ↦ rw (o, l) (omega (arith, length-methods ms))
  ]
]

length-successes : (ms : List OptimizationMetric) → length (filter_by is_success ms) ≤ length ms
length-successes [] = omega arith
length-successes (m ∷ ms) = ground (arith, length-successes ms)

success_rate-le :
    (ms : List OptimizationMetric)
    → (performance_of ms).success_rate.num ≤ (performance_of ms).success_rate.den
unfolding success_rate_of
success_rate-le [] = omega arith
success_rate-le (m ∷ ms) = length-successes (m ∷ ms)

-- The counts of a summary fit together, and no rate of a method is above one.
abbrev pub IsCoherent : Option Summary → Type 0
IsCoherent none = Unit
IsCoherent (some s) =
    (s.successes + s.failures + s.timeouts + s.errors ≡ s.total_requests)
    × (s.ortools.requests + s.legacy.requests ≤ s.total_requests)
    × (1 ≤ s.total_requests)
    × (s.ortools.success_rate.num ≤ s.ortools.success_rate.den)
    × (s.legacy.success_rate.num ≤ s.legacy.success_rate.den)

-- In every summary there is at least one request, each request counts under exactly one status and
-- at most one of the two methods, and the success rates of the methods are at most one.
pub get_performance_summary-IsCoherent :
    (now hours : ℕ) (m : Monitor) → IsCoherent (get_performance_summary now hours m)
unfolding get_performance_summary
get_performance_summary-IsCoherent now hours m =
    of_metrics (filter_by (λ x. leb (cutoff now hours) x.timestamp) m.metrics)
  where
    of_metrics : (ms : List OptimizationMetric) → IsCoherent (summarize m (cutoff now hours) ms)
    of_metrics [] = tt
    of_metrics (x ∷ xs) = (
      count_statuses (x ∷ xs),
      length-methods (x ∷ xs),
      omega arith,
      success_rate-le (by_method "ortools" (x ∷ xs)),
      success_rate-le (by_method "legacy" (x ∷ xs)),
    )
