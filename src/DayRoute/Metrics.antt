-- ===== src/DayRoute/Metrics.antt =====
-- `calculate_enhanced_metrics` of utils/hybrid_optimizer_v31.py. The efficiency score, which is
-- computed in floating point from the totals, is left out. A transfer in the metrics is the one of the
-- day; the text of its duration is left out.
use goveling_ml.Prelude.{ℕ, ◌+◌, List, [], ◌∷◌, ◌++◌, map, sum}
use goveling_ml.DayRoute.Data.{Transfer, Day}

pub record Metrics : Type 0 where
  pub total_distance_m : ℕ
  pub total_travel_time_minutes : ℕ
  pub walking_time_minutes : ℕ
  pub transport_time_minutes : ℕ
  pub long_transfers_detected : ℕ
  pub intercity_transfers : List Transfer
  pub total_intercity_minutes : ℕ
  pub total_intercity_distance_m : ℕ

module _ {Advice : Type 0} where
  abbrev pub all_transfers : List (Day Advice) → List Transfer
  all_transfers [] = []
  all_transfers (d ∷ ds) = d.transfers ++ all_transfers ds

  unfoldable pub calculate_enhanced_metrics : List (Day Advice) → Metrics
  calculate_enhanced_metrics days =
      let walking = sum (map (λ d. d.travel_summary.walking_time_minutes) days) in
      let transport = sum (map (λ d. d.travel_summary.transport_time_minutes) days) in
      let intercity = sum (map (λ d. d.travel_summary.intercity_total_minutes) days) in
      record {
        total_distance_m = sum (map (λ d. d.travel_summary.total_distance_m) days);
        total_travel_time_minutes = walking + transport;
        walking_time_minutes = walking;
        transport_time_minutes = transport;
        long_transfers_detected = sum (map (λ d. d.travel_summary.intercity_transfers_count) days);
        intercity_transfers = all_transfers days;
        total_intercity_minutes = intercity;
        total_intercity_distance_m = sum (map (λ t. t.distance_m) (all_transfers days));
      }
