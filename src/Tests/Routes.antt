-- ===== src/Tests/Routes.antt =====
-- Two requests to the route cache of utils/hybrid_optimizer_v31.py.
use goveling_ml.Prelude.{◌+◌, ◌<◌, ◌≡◌, refl, some, [], true, false, arith}
use goveling_ml.Prelude.Int.{ℤ, negsuc}
use goveling_ml.Prelude.Exceptions.{ok, err, connection_error}
use goveling_ml.Schedule.Data.{Location}
use goveling_ml.RouteCache.{
  RouteInfo, service, multimodal_router, RouteCache, Services, get_cache_key, map_mode,
  routing_service_cached,
}
use goveling_ml.RouteCache.Aging.{
  PersistentCache, routing_service_persistent_cached, cleanup_old_cache_entries,
}
use goveling_ml.RouteCache.Reuse.{as_hit, routing_service_cached-return}

abbrev plaza : Location
plaza = record { lat = negsuc 33437000; lon = negsuc 70650000 }

abbrev hill : Location
hill = record { lat = negsuc 33425000; lon = negsuc 70633000 }

-- Coordinates that have three decimals already.
abbrev keep : ℤ → ℤ
keep a = a

abbrev by_service : RouteInfo
by_service = record {
  distance_m = 2100;
  duration = 27000;
  source = service "osrm";
  cache_hit = false;
}

-- The router raises.
abbrev services : Services
services = record { multimodal = some (λ mode. err connection_error); robust = by_service }

abbrev walker : Services
walker = record {
  multimodal =
      some (λ mode. ok (some (record { distance_m = 1900; duration = 25000; success = true })));
  robust = by_service;
}

abbrev empty : RouteCache
empty = record { distance_cache = []; cache_hits = 0; cache_misses = 0 }

fallback : (routing_service_cached keep services plaza hill "drive" empty).0 ≡ by_service
unfolding routing_service_cached
fallback = refl

routed_walk : (routing_service_cached keep walker plaza hill "walking" empty).0 ≡ record {
  distance_m = 1900;
  duration = 25000;
  source = multimodal_router "walk";
  cache_hit = false;
}
unfolding routing_service_cached map_mode get_cache_key
routed_walk = refl

lasts : 0 < (routing_service_cached keep services plaza hill "drive" empty).0.duration
unfolding routing_service_cached
lasts = omega arith

routing_service_cached-return_example :
    let first = routing_service_cached keep services plaza hill "drive" empty in
    routing_service_cached keep walker hill plaza "drive" first.1
    ≡ (as_hit first.0, record (first.1) { cache_hits = first.1.cache_hits + 1 })
routing_service_cached-return_example =
    routing_service_cached-return keep services walker plaza hill "drive" empty (omega arith) lasts

abbrev stored : PersistentCache
stored =
    (routing_service_persistent_cached keep 100 by_service plaza hill "drive"
      (record { distance_cache = []; cache_hits = 0; cache_misses = 49; saves = 0 })).1

-- The fiftieth miss writes the file, and the way back is a hit.
saved : stored.saves ≡ 1
unfolding routing_service_persistent_cached get_cache_key
saved = refl

way_back :
    (routing_service_persistent_cached keep 900 by_service hill plaza "drive" stored).1.cache_hits
    ≡ 1
unfolding routing_service_persistent_cached get_cache_key
way_back = refl

-- After two days an entry of the first second is removed, if one day is the limit.
outdated : (cleanup_old_cache_entries 172900 1 stored.distance_cache).0 ≡ 1
unfolding routing_service_persistent_cached get_cache_key cleanup_old_cache_entries
outdated = refl
