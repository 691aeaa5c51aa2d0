-- ===== src/Lib.antt =====
-- The resilience layer, the caches, the monitoring and the day planner of the itinerary optimiser.
--
-- The optimiser (utils/hybrid_optimizer_v31.py) groups places into clusters, gives the clusters to
-- days, and plans each day: it sends routing requests through a circuit breaker with retries, and
-- lays activities and transfers on a timeline. services/ortools_monitoring.py records what each
-- optimization took and raises alerts.
--
-- Files:
-- - Prelude: numbers, lists, integers, exceptions as values, a stable sort, and Python's dictionary.
-- - Breaker: `CircuitBreaker`. `init`, `is_open`, `record_success`, `record_failure`, `is_closed` and
--   `call` are the methods of those names. Interleaving has the steps that coroutines which share a
--   breaker take between two suspensions; Calls is about single calls.
-- - City2GraphBreaker: `City2GraphCircuitBreaker` and its `call`.
-- - Retry: `routing_service_robust`, `places_service_robust` and, in Fallback,
--   `_emergency_routing_fallback`. Attempt i is the argument `env i`, so that time, the service and
--   `asyncio.wait_for` are parameters; the state is the breaker and the number of calls that have
--   reached the service. The loop counts down from max_retries + 1, as the range of the source does.
-- - Monitoring: `ORToolsMonitoring`. State has its data, Windows the window's counters, its rotation and
--   its statistics, Alerts the four checks with `_trigger_alert` and `_clear_alert`, Recording
--   `record_optimization`, and Summary the reports. An exception is a value that comes with the state at the time it is raised.
-- - Schedule: `_route_cluster_with_time_windows` and what it calls. Data has the records, Windows the
--   preferred time windows, durations and scores, and Route the loop over the places of a day. The
--   routing service and `str.lower` are parameters.
-- - DistanceCache: `ORToolsDistanceCache` of services/ortools_distance_cache.py. Matrix computes a matrix
--   by the geodesic distance or by OSRM, one pair after the other or in parallel tasks; Store is the
--   cache (`get_distance_matrix`, `_get_from_cache`, `_save_to_cache`, `_cleanup_cache`,
--   `invalidate_cache`). geopy, OSRM and the MD5 of the places' JSON text are parameters.
-- - Days: `allocate_clusters_to_days` with its relaxed, balanced and intensive modes and
--   `_evaluate_route_sequences` (Assign), and `pack_activities_by_strategy` (Pack). The days of a trip
--   are a list; `haversine_km` is a parameter in metres.
-- - Coordinates: `validate_coordinates`, `_validate_single_coordinate` and
--   `_attempt_coordinate_correction`. A place that the loop keeps is the dictionary as it is left; NaN
--   is not modelled.
-- - RouteCache: `routing_service_cached` and `_get_cache_key`. A key is a record of its parts; the
--   multi-modal router and the robust service are arguments of a request. Aging is the persistent
--   variant with `cleanup_old_cache_entries`.
-- - DayRoute: whole days and their sequence. State and Route are `route_day_enhanced`, which goes through
--   the clusters of a day by way of Schedule and of RouteCache; Transfers, Free and Advice are what it
--   calls for the way to a cluster, for free time and for recommendations. Between is
--   `_inject_intercity_transfers_between_days`, Metrics `calculate_enhanced_metrics`, and Trip the days
--   of `_optimize_classic_method` after the clustering and the choice of hotels. The haversine distance
--   in metres, the places service, texts made of coordinates and the table of known hotels are
--   parameters, and none of them raises but the search for suggestions and for names. The efficiency
--   score, which is computed in floating point, is left out.
-- - Decision: `ORToolsDecisionEngine` of utils/ortools_decision_engine.py. Complexity computes the score
--   of a request, Flags the feature flags and the geography, Choice `_make_decision`, and Engine the
--   whole `should_use_ortools` with its cache, its health check and its history, and Stats the statistics
--   of that history. The name of a city
--   where no place names one (DBSCAN clusters or average coordinates), `str.lower`, the MD5 of a user
--   and that of a key are parameters. A spread is kept as its square.
-- - Dispatch: `optimize_itinerary_hybrid_v31`, which tries OR-Tools, City2Graph and the classic method
--   (Cascade). Ortools is `_optimize_with_ortools`, Semantic `_optimize_with_city2graph` with the shared
--   breaker of City2GraphBreaker, Choice `should_use_city2graph` of api.py, with scores in parts of
--   150000. The decision for OR-Tools is that of Decision, with a new engine for each request. What the
--   OR-Tools service, the format converter and the classic method answer are parameters.
-- - MultiCity: trips through several cities, of services/multi_city_optimizer_simple.py,
--   services/multi_city_optimizer.py and services/intercity_service.py. Sequence is
--   `find_optimal_city_sequence`, Shares `_distribute_days_among_cities` of both optimizers, Plan the
--   schedules of the simple one, Strategy the choice of a strategy and `analyze_multi_city_complexity`,
--   Full and Countries the other optimizer, Itinerary the simple one's `optimize_multi_city_itinerary`.
--   geopy's distance, the clustering and the integrator are parameters; a share of the days is an
--   exact fraction, rounded half to even.
-- - ApiCache: the decorators that keep results in memory, of utils/google_cache.py and, in Minutes, of
--   utils/performance_cache.py. The hash of a call is a parameter.
-- - Constraints: `AdvancedConstraintsEngine` of services/ortools_advanced_constraints.py. Windows is
--   `generate_time_windows` with `_detect_time_conflicts`, Limits the constraints for vehicles, hotels
--   and travel between cities. `str.lower`, the search in a text and a place's number as a text are
--   parameters.
-- - Tests: runs on concrete inputs.
--
-- Conventions: times are milliseconds or minutes as natural numbers, coordinates are integers in
-- millionths of a degree, and an average or a rate is a fraction that is never rounded. The clock's
-- readings are arguments. The settings that the planner reads (walking up to 2 km, driving from 15 km,
-- six activities a day, lunch from 12 to 15, dinner from 19 to 22, museums from 10 to 17, shops from
-- 10 to 20) are written as numbers. The sequence of the cities
-- counts the cities that are left, which is enough fuel; every other loop runs over a list or counts
-- down.
--
-- Not modelled: the endpoints of the web API, the clients of external services, clustering and graph services built on
-- sklearn, osmnx, h3 and OR-Tools, logging, and the text of messages.
pub mod Prelude
pub mod Breaker
pub mod City2GraphBreaker
pub mod Retry
pub mod Monitoring
pub mod Schedule
pub mod DistanceCache
pub mod Days
pub mod Coordinates
pub mod RouteCache
pub mod DayRoute
pub mod Decision
pub mod Dispatch
pub mod MultiCity
pub mod ApiCache
pub mod Constraints
mod Tests
