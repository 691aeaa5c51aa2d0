-- ===== src/RouteCache.antt =====
-- `routing_service_cached` of utils/hybrid_optimizer_v31.py. Coordinates are in millionths of a
-- degree, `round_3` is Python's rounding to three decimals. The multi-modal router and the robust
-- service are what they answer to this request; times are thousandths of a minute.
pub mod Reuse
pub mod Aging
use Prim.Native.String.{String}
use text.Mathlib.Text.{◌==◌ as str_eq}
use goveling_ml.Prelude.{
  ℕ, zero, suc, ◌+◌, Bool, true, false, ◌&&◌, ◌||◌, Option, none, some, List, [], ◌∷◌, ltb,
  if◌then◌else◌, length, drop,
}
use goveling_ml.Prelude.Int.{ℤ, ltb_ℤ, leb_ℤ, eqb_ℤ}
use goveling_ml.Prelude.Exceptions.{Exception, Result, ok, err}
use goveling_ml.Schedule.Data.{Location, same_location}

-- The key is a text of these parts.
pub record Key : Type 0 where
  pub first : Location
  pub second : Location
  pub mode : String

abbrev pub same_key : Key → Key → Bool
same_key a b =
    same_location a.first b.first && (same_location a.second b.second && str_eq a.mode b.mode)

-- `a <= b` on pairs.
abbrev pub location_leb : Location → Location → Bool
location_leb a b = ltb_ℤ a.lat b.lat || (eqb_ℤ a.lat b.lat && leb_ℤ a.lon b.lon)

unfoldable pub get_cache_key : (ℤ → ℤ) → Location → Location → String → Key
get_cache_key round_3 origin destination mode =
    let a : Location = record { lat = round_3 origin.lat; lon = round_3 origin.lon } in
    let b : Location = record { lat = round_3 destination.lat; lon = round_3 destination.lon } in
    if location_leb a b
    then record { first = a; second = b; mode = mode }
    else record { first = b; second = a; mode = mode }

pub data RouteSource : Type 0 where
  multimodal_router : String → RouteSource
  service : String → RouteSource

pub record RouteInfo : Type 0 where
  pub distance_m : ℕ
  pub duration : ℕ
  pub source : RouteSource
  pub cache_hit : Bool

abbrev pub Entries : Type 0
Entries = List (Key × RouteInfo)

pub record RouteCache : Type 0 where
  pub distance_cache : Entries
  pub cache_hits : ℕ
  pub cache_misses : ℕ

abbrev pub lookup : Key → Entries → Option RouteInfo
lookup k [] = none
lookup k ((j, v) ∷ d) = let rest = lookup k d in if same_key j k then some v else rest

-- `d[k] = v` keeps the place of a key that is there.
abbrev pub set : Key → RouteInfo → Entries → Entries
set k v [] = (k, v) ∷ []
set k v ((j, w) ∷ d) = let rest = set k v d in if same_key j k then (j, v) ∷ d else (j, w) ∷ rest

-- Over 1000 entries the first 200 are removed.
unfoldable pub limit_size : Entries → Entries
limit_size d = if ltb 1000 (length d) then drop 200 d else d

-- A route of the multi-modal router, with 0 for what it leaves out.
pub record RouterResult : Type 0 where
  pub distance_m : ℕ
  pub duration : ℕ
  pub success : Bool

-- What this request is answered: by the multi-modal router for a mode, if there is one, and by the
-- robust service.
pub record Services : Type 0 where
  pub multimodal : Option (String → Result (Option RouterResult))
  pub robust : RouteInfo

unfoldable pub map_mode : String → String
map_mode mode =
    if str_eq mode "walk" || str_eq mode "walking"
    then "walk"
    else if str_eq mode "drive" || str_eq mode "driving"
    then "drive"
    else if str_eq mode "bike" || str_eq mode "bicycle"
    then "bike"
    else "walk"

abbrev pub convert : String → RouterResult → RouteInfo
convert mode r = record {
  distance_m = r.distance_m;
  duration = r.duration;
  source = multimodal_router mode;
  cache_hit = false;
}

abbrev pub if_successful : String → Result (Option RouterResult) → Option RouteInfo
if_successful mode (err e) = none
if_successful mode (ok none) = none
if_successful mode (ok (some r)) = if r.success then some (convert mode r) else none

-- A router that raises or does not succeed is passed over.
abbrev pub routed : String → Option (String → Result (Option RouterResult)) → Option RouteInfo
routed mode none = none
routed mode (some router) = if_successful mode (router mode)

abbrev pub store_if_valid : Key → RouteInfo → Entries → Entries
store_if_valid k r d = if ltb 0 r.duration then set k r d else d

-- The size is limited only after the robust service has answered.
abbrev pub from_services : Key → Services → Option RouteInfo → RouteCache → RouteInfo × RouteCache
from_services k services (some r) s = (
  r,
  record s {
    distance_cache = store_if_valid k r s.distance_cache;
    cache_misses = s.cache_misses + 1;
  },
)
from_services k services none s =
    let r = services.robust in
    (
      record r { cache_hit = false },
      record s {
        distance_cache =
            if ltb 0 r.duration then limit_size (set k r s.distance_cache) else s.distance_cache;
        cache_misses = s.cache_misses + 1;
      },
    )

abbrev pub from_cache : Key → Services → Option RouteInfo → RouteCache → RouteInfo × RouteCache
from_cache k services (some r) s =
    (record r { cache_hit = true }, record s { cache_hits = s.cache_hits + 1 })
from_cache k services none s =
    from_services k services (routed (map_mode k.mode) services.multimodal) s

unfoldable pub routing_service_cached :
    (ℤ → ℤ) → Services → Location → Location → String → RouteCache → RouteInfo × RouteCache
unfolding get_cache_key limit_size map_mode
routing_service_cached round_3 services origin destination mode s =
    let k = get_cache_key round_3 origin destination mode in
    from_cache k services (lookup k s.distance_cache) s
