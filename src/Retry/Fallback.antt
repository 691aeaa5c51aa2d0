-- ===== src/Retry/Fallback.antt =====
-- `_emergency_routing_fallback` of utils/hybrid_optimizer_v31.py. The haversine distance is an
-- argument, in metres; the duration is exact where the program rounds a float quotient.
use Prim.Native.String.{String}
use text.Mathlib.Text.{◌==◌ as str_eq}
use goveling_ml.Prelude.{ℕ, ◌*◌, ◌/◌, Bool, true, max, if◌then◌else◌}

pub record Estimate : Type 0 where
  pub duration_minutes : ℕ
  pub distance_m : ℕ
  pub fallback_used : Bool

-- km/h; an unknown mode goes at walking speed.
unfoldable pub speed_estimate : String → ℕ
speed_estimate mode =
    if str_eq mode "walk"
    then 4
    else if str_eq mode "bicycle"
    then 15
    else if str_eq mode "drive"
    then 30
    else if str_eq mode "transit"
    then 20
    else 4

unfoldable pub emergency_routing_fallback : ℕ → String → Estimate
unfolding speed_estimate
emergency_routing_fallback distance_m mode = record {
  duration_minutes = max (distance_m * 60 / (speed_estimate mode * 1000)) 5;
  distance_m = distance_m;
  fallback_used = true;
}
