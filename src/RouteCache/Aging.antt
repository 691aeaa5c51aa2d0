-- ===== src/RouteCache/Aging.antt =====
-- The persistent route cache of utils/hybrid_optimizer_v31.py: `routing_service_persistent_cached` and
-- `cleanup_old_cache_entries`. Times of entries are seconds; the file is the number of its writes.
use Prim.Native.String.{String}
use goveling_ml.Prelude.{
  ℕ, ◌+◌, ◌-◌, ◌*◌, ◌%◌, ◌≡◌, refl, ap, inl, inr, Bool, true, false, Option, none, some, List, [],
  ◌∷◌, ltb, leb, ◌==◌, arith, if◌then◌else◌, length, filter_by, Bool-cases,
}
use goveling_ml.Prelude.Int.{ℤ}
use goveling_ml.Prelude.Exceptions.{Result, ok, err}
use goveling_ml.Schedule.Data.{Location}
use goveling_ml.RouteCache.{Key, same_key, get_cache_key, RouteInfo}

-- An entry that `routing_service_cached` wrote has no timestamp; a text may fail to be read.
pub data Stamp : Type 0 where
  missing : Stamp
  seconds : ℕ → Stamp
  text : Result ℕ → Stamp

pub record StampedRoute : Type 0 where
  pub route : RouteInfo
  pub timestamp : Stamp

abbrev pub StampedEntries : Type 0
StampedEntries = List (Key × StampedRoute)

abbrev pub entry_time : ℕ → Stamp → Result ℕ
entry_time now missing = ok now
entry_time now (seconds t) = ok t
entry_time now (text r) = r

-- An entry whose time cannot be read is kept.
abbrev pub young : ℕ → ℕ → Result ℕ → Bool
young now max_age (ok t) = leb (now - t) max_age
young now max_age (err e) = true

abbrev pub is_kept : ℕ → ℕ → Key × StampedRoute → Bool
is_kept now max_age e = young now max_age (entry_time now e.1.timestamp)

-- The number of the entries that are removed, and the others.
unfoldable pub cleanup_old_cache_entries : ℕ → ℕ → StampedEntries → ℕ × StampedEntries
cleanup_old_cache_entries now max_age_days [] = (0, [])
cleanup_old_cache_entries now max_age_days (e ∷ d) =
    let (removed_count, new_cache) = cleanup_old_cache_entries now max_age_days d in
    if is_kept now (max_age_days * 24 * 3600) e
    then (removed_count, e ∷ new_cache)
    else (removed_count + 1, new_cache)

pub record PersistentCache : Type 0 where
  pub distance_cache : StampedEntries
  pub cache_hits : ℕ
  pub cache_misses : ℕ
  pub saves : ℕ

abbrev pub find_route : Key → StampedEntries → Option StampedRoute
find_route k [] = none
find_route k ((j, v) ∷ d) = let rest = find_route k d in if same_key j k then some v else rest

abbrev pub put_route : Key → StampedRoute → StampedEntries → StampedEntries
put_route k v [] = (k, v) ∷ []
put_route k v ((j, w) ∷ d) =
    let rest = put_route k v d in if same_key j k then (j, v) ∷ d else (j, w) ∷ rest

-- Every fiftieth miss the file is written.
abbrev pub store_route : ℕ → Key → RouteInfo → PersistentCache → PersistentCache
store_route now k r s =
    if ltb 0 r.duration
    then record s {
      distance_cache = put_route k (record { route = r; timestamp = seconds now }) s.distance_cache;
      saves = if s.cache_misses % 50 == 0 then s.saves + 1 else s.saves;
    }
    else s

-- What the robust service answers is an argument.
abbrev pub answer_route :
    ℕ → Key → RouteInfo → Option StampedRoute → PersistentCache → RouteInfo × PersistentCache
answer_route now k robust (some e) s =
    (record e.route { cache_hit = true }, record s { cache_hits = s.cache_hits + 1 })
answer_route now k robust none s = (
  record robust { cache_hit = false },
  store_route now k robust (record s { cache_misses = s.cache_misses + 1 }),
)

unfoldable pub routing_service_persistent_cached :
    (ℤ → ℤ)
    → ℕ
    → RouteInfo
    → Location
    → Location
    → String
    → PersistentCache
    → RouteInfo × PersistentCache
unfolding get_cache_key
routing_service_persistent_cached round_3 now robust origin destination mode s =
    let k = get_cache_key round_3 origin destination mode in
    answer_route now k robust (find_route k s.distance_cache) s

-- What the cleanup leaves is exactly what is young enough, in its order, and it counts the others.
pub cleanup_old_cache_entries_lem :
    (now max_age_days : ℕ) (d : StampedEntries)
    → let (removed_count, new_cache) = cleanup_old_cache_entries now max_age_days d in
      (new_cache ≡ filter_by (is_kept now (max_age_days * 24 * 3600)) d)
      × (removed_count + length new_cache ≡ length d)
unfolding cleanup_old_cache_entries
cleanup_old_cache_entries_lem now max_age_days [] = (refl, omega arith)
cleanup_old_cache_entries_lem now max_age_days (e ∷ d) =
    let (same, count) = cleanup_old_cache_entries_lem now max_age_days d in
    elim (Bool-cases (is_kept now (max_age_days * 24 * 3600) e)) [
      | inl kept ↦ rw kept (ap (λ x. e ∷ x) same, omega (arith, count))
      | inr old ↦ rw old (same, omega (arith, count))
    ]
