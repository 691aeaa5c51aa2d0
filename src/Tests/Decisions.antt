-- ===== src/Tests/Decisions.antt =====
-- Requests to the decision engine of utils/ortools_decision_engine.py.
use Prim.Native.String.{String}
use goveling_ml.Prelude.{
  ℕ, ◌+◌, ◌-◌, ◌<◌, ◌≡◌, refl, true, ◌&&◌, ◌||◌, Option, none, some, List, [], ◌∷◌, leb, arith,
  length,
}
use goveling_ml.Prelude.Int.{pos, negsuc}
use goveling_ml.Prelude.Exceptions.{ok, err, connection_error}
use goveling_ml.Prelude.Dict.{lookup}
use goveling_ml.Decision.{
  Place, Request, Settings, ortools_service_unhealthy, moderate_places, single_day_ok,
  medium_confidence_ortools,
}
use goveling_ml.Decision.Complexity.{
  calculate_overall_complexity, calculate_geographic_spread, calculate_semantic_diversity,
  count_time_constraints, analyze_transport_complexity, analyze_complexity,
}
use goveling_ml.Decision.Flags.{
  detect_city, check_user_eligibility, check_geo_eligibility, check_feature_flags,
  analyze_geography,
}
use goveling_ml.Decision.Choice.{choose, make_decision}
use goveling_ml.Decision.Engine.{
  Factors, factors, Inputs, init, check_ortools_health, decide, should_use_ortools,
}
use goveling_ml.Decision.Exact.{decide_exact}
use goveling_ml.Decision.Reuse.{should_use_ortools-again}

abbrev pub keep : String → String
keep s = s

abbrev pub nowhere : List Place → Option String
nowhere places = none

abbrev pub user_7 : String → ℕ
user_7 s = 107

abbrev pub count_places : Factors → ℕ
count_places f = f.places_count

abbrev museum : Place
museum = record {
  lat = some (negsuc 33437000);
  latitude = none;
  lon = some (negsuc 70650000);
  longitude = none;
  kind = some "museum";
  place_type = none;
  city = none;
  locality = some "Santiago";
}

abbrev far_park : Place
far_park = record museum {
  lat = some (negsuc 23650000);
  lon = some (negsuc 70400000);
  kind = some "park";
  locality = some "Antofagasta";
}

abbrev near_park : Place
near_park = record museum { lat = some (negsuc 33425000); kind = some "park" }

abbrev pub request : Request
request = record {
  places = museum ∷ near_park ∷ museum ∷ [];
  start_date = "2026-01-10";
  end_date = "2026-01-10";
  days_between = some (pos 1);
  daily_start_hour = some 9;
  daily_end_hour = none;
  time_windows = 0;
  fixed_activities = 1;
  transport_mode = some "driving";
  user_id = some "ana";
  session_id = none;
}

abbrev far_request : Request
far_request = record request { places = far_park ∷ far_park ∷ museum ∷ [] }

abbrev pub settings : Settings
settings = record {
  enable_ortools = true;
  min_places = 4;
  min_days = 2;
  max_places = 50;
  max_distance_km = 500;
  restricts_cities = true;
  allowed_cities = "Santiago" ∷ [];
  excluded_cities = [];
  user_percentage = 50;
  expected_exec_time_ms = 2000;
  track_performance = true;
}

abbrev pub inputs : Inputs
inputs = record {
  now = 1000000;
  checked = 1000010;
  saved = 1000020;
  decision_time_ms = 20;
  health = ok true;
}

abbrev later : Inputs
later = record inputs {
  now = 1400000;
  checked = 1400000;
  saved = 1400010;
  health = err connection_error;
}

score : (analyze_complexity request).overall_score ≡ 100 + 60 + 40 + 50
unfolding analyze_complexity calculate_overall_complexity calculate_geographic_spread
    calculate_semantic_diversity count_time_constraints analyze_transport_complexity
score = refl

santiago : detect_city keep nowhere user_7 request.places ≡ some "Santiago"
unfolding detect_city
santiago = refl

accepted :
    (should_use_ortools keep nowhere user_7 count_places settings inputs request init).0.reasons
    ≡ moderate_places 3 ∷ single_day_ok ∷ medium_confidence_ortools ∷ []
unfolding should_use_ortools check_ortools_health decide make_decision choose check_feature_flags
    check_user_eligibility check_geo_eligibility detect_city analyze_geography
    calculate_geographic_spread analyze_complexity calculate_overall_complexity
    calculate_semantic_diversity count_time_constraints analyze_transport_complexity factors init
accepted = refl

unhealthy :
    (should_use_ortools keep nowhere user_7 count_places settings later request init).0.reasons
    ≡ ortools_service_unhealthy ∷ []
unfolding should_use_ortools check_ortools_health decide make_decision choose check_feature_flags
    check_user_eligibility check_geo_eligibility detect_city factors init
unhealthy = refl

decide_exact_example :
    (decide keep nowhere user_7 count_places settings inputs request (true, init)).0.use_ortools ≡ (
      settings.enable_ortools
      && (check_user_eligibility keep nowhere user_7 settings request
          && (check_geo_eligibility keep nowhere user_7 settings request
              && (true
                  && ((analyze_geography settings request).appropriate_for_ortools
                      && (leb settings.min_places (length request.places)
                          || leb 3 (length request.places)))))))
decide_exact_example =
    decide_exact keep nowhere user_7 count_places settings inputs request true init

missing : lookup (count_places (factors settings request)) init.decision_cache ≡ none
unfolding factors init
missing = refl

alike : factors settings far_request ≡ factors settings request
unfolding factors
alike = refl

soon : later.now - inputs.saved < init.cache_ttl
unfolding init
soon = omega arith

-- Three places a thousand kilometres apart get what three places in Santiago got.
should_use_ortools-again_example :
    let ask = should_use_ortools keep nowhere user_7 count_places settings in
    ask later far_request (ask inputs request init).1
    ≡ ((ask inputs request init).0, (ask inputs request init).1)
should_use_ortools-again_example =
    should_use_ortools-again keep nowhere user_7 count_places settings inputs later request
      far_request init missing alike soon
