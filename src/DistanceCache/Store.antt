-- ===== src/DistanceCache/Store.antt =====
-- The cache of services/ortools_distance_cache.py. `digest` stands for the MD5 of the JSON text of
-- the normalized places, as a number; coordinates are in millionths of a degree, so rounding to six
-- decimals keeps them. The clock's readings are arguments.
use goveling_ml.Prelude.{
  ℕ, ◌+◌, ◌-◌, ◌*◌, ◌/◌, Bool, ◌&&◌, ◌||◌, not, Option, none, some, List, [], map, ltb, leb,
  if◌then◌else◌, length, take, max, filter_by,
}
use goveling_ml.Prelude.Int.{ltb_ℤ, leb_ℤ}
use goveling_ml.Prelude.Exceptions.{Result, ok, err}
use goveling_ml.Prelude.Sort.{sorted}
use goveling_ml.Prelude.Dict.{lookup, set, erase, erase_all}
use goveling_ml.DistanceCache.Matrix.{
  Place, Matrix, Env, Preference, Source, calculate_distance_matrix,
}

pub record CachedDistanceMatrix : Type 0 where
  pub matrix_data : Matrix
  pub places_hash : ℕ
  pub timestamp : ℕ
  pub source : Source
  pub cache_ttl : ℕ

-- `cache_ttl` is in seconds.
unfoldable pub is_expired : ℕ → CachedDistanceMatrix → Bool
is_expired now c = ltb (c.timestamp + c.cache_ttl * 1000) now

unfoldable pub age_seconds : ℕ → CachedDistanceMatrix → ℕ
age_seconds now c = (now - c.timestamp) / 1000

abbrev pub Entries : Type 0
Entries = List (ℕ × CachedDistanceMatrix)

-- The average time is a fraction of numerator and denominator.
pub record DistanceCache : Type 0 where
  pub cache : Entries
  pub max_cache_size : ℕ
  pub cache_ttl : ℕ
  pub hits : ℕ
  pub misses : ℕ
  pub cache_size : ℕ
  pub average_time : ℕ × ℕ
  pub total_matrices_cached : ℕ

unfoldable pub init : ℕ → DistanceCache
init cache_ttl = record {
  cache = [];
  max_cache_size = 1000;
  cache_ttl = cache_ttl;
  hits = 0;
  misses = 0;
  cache_size = 0;
  average_time = (0, 1);
  total_matrices_cached = 0;
}

-- What the clock reads during one request: at the lookup, for the age of a hit, in the cleanup for
-- the entry of a key, and when the entry is made; and how long the request took.
pub record Clock : Type 0 where
  pub found : ℕ
  pub aged : ℕ
  pub cleanup : ℕ → ℕ
  pub saved : ℕ
  pub elapsed : ℕ

-- The places by latitude, and by longitude where that is equal.
unfoldable pub coordinates_leb : Place → Place → Bool
coordinates_leb p q =
    ltb_ℤ p.location.lat q.location.lat
    || (leb_ℤ p.location.lat q.location.lat && leb_ℤ p.location.lon q.location.lon)

unfoldable pub generate_places_hash : (List Place → ℕ) → List Place → ℕ
unfolding coordinates_leb
generate_places_hash digest places = digest (sorted coordinates_leb places)

abbrev pub unless_expired :
    ℕ
    → ℕ
    → Option CachedDistanceMatrix
    → DistanceCache
    → Option CachedDistanceMatrix × DistanceCache
unless_expired now key none s = (none, s)
unless_expired now key (some c) s =
    let rest = erase key s.cache in
    if is_expired now c
    then (none, record s { cache = rest; cache_size = length rest })
    else (some c, s)

unfoldable pub get_from_cache : ℕ → ℕ → DistanceCache → Option CachedDistanceMatrix × DistanceCache
unfolding is_expired
get_from_cache now key s = unless_expired now key (lookup key s.cache) s

unfoldable pub remove_expired : (ℕ → ℕ) → Entries → Entries
unfolding is_expired
remove_expired now entries = filter_by (λ e. not (is_expired (now e.0) e.1)) entries

abbrev pub by_timestamp : ℕ × CachedDistanceMatrix → ℕ × CachedDistanceMatrix → Bool
by_timestamp x y = leb x.1.timestamp y.1.timestamp

-- The keys of the oldest fifth, and at least one.
unfoldable pub oldest_keys : Entries → List ℕ
oldest_keys entries =
    take (max 1 (length entries / 5)) (map (λ e. e.0) (sorted by_timestamp entries))

unfoldable pub cleanup_cache : (ℕ → ℕ) → DistanceCache → DistanceCache
unfolding remove_expired oldest_keys
cleanup_cache now s =
    let kept = remove_expired now s.cache in
    let left =
      if leb s.max_cache_size (length kept) then erase_all (oldest_keys kept) kept else kept in
    record s { cache = left; cache_size = length left }

-- The cleanup of a full cache, before an entry is made.
unfoldable pub make_room : (ℕ → ℕ) → DistanceCache → DistanceCache
unfolding cleanup_cache
make_room now s = if leb s.max_cache_size (length s.cache) then cleanup_cache now s else s

unfoldable pub save_to_cache : Clock → ℕ → Matrix → Source → DistanceCache → DistanceCache
unfolding make_room
save_to_cache c key matrix source s =
    let roomy = make_room c.cleanup s in
    let entry : CachedDistanceMatrix = record {
      matrix_data = matrix;
      places_hash = key;
      timestamp = c.saved;
      source = source;
      cache_ttl = s.cache_ttl;
    } in
    let entries = set key entry roomy.cache in
    record roomy {
      cache = entries;
      cache_size = length entries;
      total_matrices_cached = roomy.total_matrices_cached + 1;
    }

-- The matrix with the metadata of a hit or of a miss.
pub data Answer : Type 0 where
  hit : (matrix : Matrix) (original_source : Source) (age : ℕ) → Answer
  computed : (matrix : Matrix) (source : Source) (places_count : ℕ) → Answer

abbrev pub average : ℕ × ℕ → ℕ → ℕ × ℕ
average (num, den) elapsed = (num + elapsed * den, 2 * den)

-- The matrix goes into the cache before the average of the times is updated.
abbrev pub on_miss :
    Clock → ℕ → ℕ → Result (Matrix × Source) → DistanceCache → Result Answer × DistanceCache
on_miss c key count (err e) s = (err e, s)
on_miss c key count (ok (matrix, source)) s =
    let saved = save_to_cache c key matrix source s in
    (
      ok (computed matrix source count),
      record saved { average_time = average saved.average_time c.elapsed },
    )

abbrev pub answer :
    Clock
    → ℕ
    → ℕ
    → Result (Matrix × Source)
    → Option CachedDistanceMatrix × DistanceCache
    → Result Answer × DistanceCache
answer c key count calculated (some m, s) =
    (ok (hit m.matrix_data m.source (age_seconds c.aged m)), record s { hits = s.hits + 1 })
answer c key count calculated (none, s) =
    on_miss c key count calculated (record s { misses = s.misses + 1 })

unfoldable pub get_distance_matrix :
    (List Place → ℕ)
    → Env
    → Clock
    → List Place
    → Preference
    → DistanceCache
    → Result Answer × DistanceCache
unfolding get_from_cache save_to_cache generate_places_hash age_seconds
get_distance_matrix digest env c places preference s =
    let key = generate_places_hash digest places in
    answer c key (length places) (calculate_distance_matrix env places preference)
      (get_from_cache c.found key s)

-- `invalidate_cache(places_hash)` leaves the statistics as they are.
abbrev pub invalidate : ℕ → Option CachedDistanceMatrix → DistanceCache → DistanceCache
invalidate key none s = s
invalidate key (some c) s = record s { cache = erase key s.cache }

unfoldable pub invalidate_cache : Option ℕ → DistanceCache → DistanceCache
invalidate_cache none s = record s { cache = []; cache_size = 0 }
invalidate_cache (some key) s = invalidate key (lookup key s.cache) s
