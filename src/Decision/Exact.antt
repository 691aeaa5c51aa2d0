-- ===== src/Decision/Exact.antt =====
-- When `_make_decision` of utils/ortools_decision_engine.py decides for OR-Tools.
use Prim.Native.String.{String}
use goveling_ml.Prelude.{ℕ, ◌≡◌, Bool, ◌&&◌, ◌||◌, Option, List, leb, arith, length}
use goveling_ml.Decision.{Place, Request, Settings, ItineraryComplexity, FeatureFlags, GeoAnalysis}
use goveling_ml.Decision.Complexity.{analyze_complexity}
use goveling_ml.Decision.Flags.{
  check_user_eligibility, check_geo_eligibility, check_feature_flags, analyze_geography,
}
use goveling_ml.Decision.Choice.{weigh, choose, make_decision}
use goveling_ml.Decision.Engine.{Factors, Inputs, Engine, decide}

weigh_exact :
    (s : Settings) (c : ItineraryComplexity)
    → (weigh s c).use_ortools ≡ (leb s.min_places c.places_count || leb 3 c.places_count)
weigh_exact s c = ground arith

choose_exact :
    (s : Settings) (c : ItineraryComplexity) (healthy : Bool) (flags : FeatureFlags)
    (geo : GeoAnalysis)
    → (choose s c healthy flags geo).use_ortools ≡ (
        flags.enabled
        && (flags.user_eligible
            && (flags.geo_eligible
                && (healthy
                    && (geo.appropriate_for_ortools
                        && (leb s.min_places c.places_count || leb 3 c.places_count))))))
unfolding choose
choose_exact s c healthy flags geo = ground (arith, weigh_exact s c)

module _ (lower : String → String) (automatic_city : List Place → Option String)
    (user_hash : String → ℕ) (digest : Factors → ℕ) where
  -- A decision made anew is for OR-Tools exactly if the engine is switched on, the user and the city
  -- are eligible, the service is healthy, the geography is appropriate, and there are at least three
  -- places, or as many as the setting for the minimum if that is less. Days, types, transport and
  -- complexity never matter.
  pub decide_exact :
      (s : Settings) (i : Inputs) (r : Request) (healthy : Bool) (e : Engine)
      → (decide lower automatic_city user_hash digest s i r (healthy, e)).0.use_ortools ≡ (
          s.enable_ortools
          && (check_user_eligibility lower automatic_city user_hash s r
              && (check_geo_eligibility lower automatic_city user_hash s r
                  && (healthy
                      && ((analyze_geography s r).appropriate_for_ortools
                          && (leb s.min_places (length r.places) || leb 3 (length r.places)))))))
  unfolding decide make_decision check_feature_flags analyze_complexity
  decide_exact s i r healthy e = ground (
    arith,
    choose_exact s (analyze_complexity r) healthy
        (check_feature_flags lower automatic_city user_hash s r) (analyze_geography s r),
  )
