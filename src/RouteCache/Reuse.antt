-- ===== src/RouteCache/Reuse.antt =====
-- That routes are found again, in either direction (utils/hybrid_optimizer_v31.py).
use Prim.Native.String.{String}
use text.Mathlib.TextPositions.{eq_refl}
use goveling_ml.Prelude.{
  suc, ◌+◌, ◌≤◌, ◌<◌, ◌≡◌, refl, ap, ◌∙◌, inl, inr, true, false, Option, none, some, [], ◌∷◌, ltb,
  arith, length, Bool-cases, Option-cases,
}
use goveling_ml.Prelude.Int.{ℤ, pos, negsuc, eqb_ℤ}
use goveling_ml.Schedule.Data.{Location}
use goveling_ml.RouteCache.{
  Key, same_key, location_leb, get_cache_key, RouteInfo, Entries, RouteCache, lookup, set,
  limit_size, Services, routed, map_mode, from_services, routing_service_cached,
}

eqb_ℤ-eq : (a b : ℤ) → eqb_ℤ a b ≡ true → a ≡ b
eqb_ℤ-eq (pos a) (pos b) h = ground arith
eqb_ℤ-eq (pos a) (negsuc b) h = ground arith
eqb_ℤ-eq (negsuc a) (pos b) h = ground arith
eqb_ℤ-eq (negsuc a) (negsuc b) h = ground arith

location-antisym : (a b : Location) → location_leb a b ≡ true → location_leb b a ≡ true → a ≡ b
location-antisym a b h k =
    let e = eqb_ℤ-eq a.lat b.lat (ground arith) in let f = eqb_ℤ-eq a.lon b.lon (ground arith) in cc

location-total : (a b : Location) → location_leb a b ≡ false → location_leb b a ≡ true
location-total a b h = ground arith

-- A route has the same key in both directions.
pub get_cache_key_comm :
    (round_3 : ℤ → ℤ) (a b : Location) (mode : String)
    → get_cache_key round_3 b a mode ≡ get_cache_key round_3 a b mode
unfolding get_cache_key
get_cache_key_comm round_3 a b mode =
    let x : Location = record { lat = round_3 a.lat; lon = round_3 a.lon } in
    let y : Location = record { lat = round_3 b.lat; lon = round_3 b.lon } in
    elim (Bool-cases (location_leb x y)) [
      | inr after ↦ rw (after, location-total x y after) refl
      | inl before ↦ elim (Bool-cases (location_leb y x)) [
        | inl also ↦ rw (before, also) (let e = location-antisym x y before also in cc)
        | inr not_also ↦ rw (before, not_also) refl
      ]
    ]

same_key_refl : (k : Key) → same_key k k ≡ true
same_key_refl k = ground (arith, eq_refl k.mode)

lookup-set : (k : Key) (v : RouteInfo) (d : Entries) → lookup k (set k v d) ≡ some v
lookup-set k v [] = rw (same_key_refl k) refl
lookup-set k v ((j, w) ∷ d) = elim (Bool-cases (same_key j k)) [
  | inl same ↦ rw (same, same) refl
  | inr other ↦ rw (other, other) (lookup-set k v d)
]

length-set : (k : Key) (v : RouteInfo) (d : Entries) → length (set k v d) ≤ suc (length d)
length-set k v [] = omega arith
length-set k v ((j, w) ∷ d) = ground (arith, length-set k v d)

abbrev pub as_hit : RouteInfo → RouteInfo
as_hit r = record r { cache_hit = true }

-- The route is found under its key.
abbrev IsKept : Key → RouteInfo × RouteCache → Type 0
IsKept k (r, s) = (x : RouteInfo) × (lookup k s.distance_cache ≡ some x) × (as_hit x ≡ as_hit r)

set-limit_size :
    (k : Key) (v : RouteInfo) (d : Entries) → length d < 1000 → limit_size (set k v d) ≡ set k v d
unfolding limit_size
set-limit_size k v d h = ground (arith, length-set k v d)

from_services-IsKept :
    (k : Key) (services : Services) (r : Option RouteInfo) (s : RouteCache)
    → length s.distance_cache < 1000
    → 0 < (from_services k services r s).0.duration
    → IsKept k (from_services k services r s)
from_services-IsKept k services (some r) s h lasts =
    let valid : ltb 0 r.duration ≡ true = ground arith in
    rw valid (r, lookup-set k r s.distance_cache, refl)
from_services-IsKept k services none s h lasts =
    let r = services.robust in
    let valid : ltb 0 r.duration ≡ true = ground arith in
    rw (valid, set-limit_size k r s.distance_cache h) (r, lookup-set k r s.distance_cache, refl)

cached-IsKept :
    (round_3 : ℤ → ℤ) (services : Services) (a b : Location) (mode : String) (s : RouteCache)
    → length s.distance_cache < 1000
    → 0 < (routing_service_cached round_3 services a b mode s).0.duration
    → IsKept (get_cache_key round_3 a b mode) (routing_service_cached round_3 services a b mode s)
unfolding routing_service_cached
cached-IsKept round_3 services a b mode s h lasts =
    let k = get_cache_key round_3 a b mode in
    elim (Option-cases (lookup k s.distance_cache)) [
      | inr (x, e) ↦ rw e (x, e, refl)
      | inl missing ↦ rw missing (
          from_services-IsKept k services (routed (map_mode k.mode) services.multimodal) s h
            (rw missing at lasts))
    ]

hit_again :
    (round_3 : ℤ → ℤ) (services : Services) (a b : Location) (mode : String) (s : RouteCache)
    (x : RouteInfo)
    → lookup (get_cache_key round_3 a b mode) s.distance_cache ≡ some x
    → routing_service_cached round_3 services a b mode s
      ≡ (as_hit x, record s { cache_hits = s.cache_hits + 1 })
unfolding routing_service_cached
hit_again round_3 services a b mode s x e = rw e refl

-- A route of positive duration that a request gets while the cache holds fewer than 1000 routes is
-- what the next request for the way back in the same mode gets, marked as a hit, whatever the
-- services would answer then; nothing but the count of hits changes.
pub routing_service_cached-return :
    (round_3 : ℤ → ℤ) (services services' : Services) (a b : Location) (mode : String)
    (s : RouteCache)
    → let first = routing_service_cached round_3 services a b mode s in
      length s.distance_cache < 1000
      → 0 < first.0.duration
      → routing_service_cached round_3 services' b a mode first.1
        ≡ (as_hit first.0, record (first.1) { cache_hits = first.1.cache_hits + 1 })
routing_service_cached-return round_3 services services' a b mode s h lasts =
    let (x, e, same) = cached-IsKept round_3 services a b mode s h lasts in
    let s' = (routing_service_cached round_3 services a b mode s).1 in
    hit_again round_3 services' b a mode s' x (rw (get_cache_key_comm round_3 a b mode) e)
    ∙ ap (λ r. (r, record s' { cache_hits = s'.cache_hits + 1 })) same
