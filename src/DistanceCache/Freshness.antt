-- ===== src/DistanceCache/Freshness.antt =====
-- What a request that follows another one gets from the cache of
-- services/ortools_distance_cache.py.
use goveling_ml.Prelude.{
  ℕ, ◌+◌, ◌-◌, ◌*◌, ◌/◌, ◌≤◌, ◌≡◌, refl, ap, ◌∙◌, inl, inr, false, Option, none, some, List, arith,
  length, Bool-cases, Option-cases,
}
use goveling_ml.Prelude.Exceptions.{Result, ok, err}
use goveling_ml.Prelude.Dict.{lookup, lookup-set}
use goveling_ml.DistanceCache.Matrix.{
  Place, Matrix, Env, Preference, Source, calculate_distance_matrix,
}
use goveling_ml.DistanceCache.Store.{
  CachedDistanceMatrix, DistanceCache, Clock, hit, computed, is_expired, age_seconds,
  get_from_cache, make_room, save_to_cache, answer, get_distance_matrix, generate_places_hash,
}

abbrev pub entry : Clock → ℕ → Matrix → Source → ℕ → CachedDistanceMatrix
entry c key m source ttl = record {
  matrix_data = m;
  places_hash = key;
  timestamp = c.saved;
  source = source;
  cache_ttl = ttl;
}

-- The time to live of the entries is never changed.
get_from_cache-ttl :
    (now key : ℕ) (s : DistanceCache) → (get_from_cache now key s).1.cache_ttl ≡ s.cache_ttl
unfolding get_from_cache
get_from_cache-ttl now key s = elim (Option-cases (lookup key s.cache)) [
  | inl missing ↦ rw missing refl
  | inr (c, e) ↦ elim (Bool-cases (is_expired now c)) [
    | inl old ↦ rw (e, old) refl
    | inr fresh ↦ rw (e, fresh) refl
  ]
]

lookup-save_to_cache :
    (c : Clock) (key : ℕ) (m : Matrix) (source : Source) (s : DistanceCache)
    → lookup key (save_to_cache c key m source s).cache ≡ some (entry c key m source s.cache_ttl)
unfolding save_to_cache
lookup-save_to_cache c key m source s =
    lookup-set key (entry c key m source s.cache_ttl) (make_room c.cleanup s).cache

lookup-answer :
    (c : Clock) (key count n : ℕ) (calculated : Result (Matrix × Source))
    (found : Option CachedDistanceMatrix) (s : DistanceCache) (m : Matrix) (source : Source)
    → (answer c key count calculated (found, s)).0 ≡ ok (computed m source n)
    → lookup key (answer c key count calculated (found, s)).1.cache
      ≡ some (entry c key m source s.cache_ttl)
lookup-answer c key count n calculated (some x) s m source e = cc
lookup-answer c key count n (err x) none s m source e = cc
lookup-answer c key count n (ok (m', source')) none s m source e =
    lookup-save_to_cache c key m' source' (record s { misses = s.misses + 1 }) ∙ cc

answer-fresh :
    (digest : List Place → ℕ) (env : Env) (c : Clock) (places : List Place)
    (preference : Preference) (s : DistanceCache) (x : CachedDistanceMatrix)
    → lookup (generate_places_hash digest places) s.cache ≡ some x
    → is_expired c.found x ≡ false
    → get_distance_matrix digest env c places preference s
      ≡ (ok (hit x.matrix_data x.source (age_seconds c.aged x)), record s { hits = s.hits + 1 })
unfolding get_distance_matrix get_from_cache
answer-fresh digest env c places preference s x e fresh = rw (e, fresh) refl

-- After a request that computed a matrix, any request of the same hash that comes before the time to
-- live is over gets that very matrix with its source and age, whatever the services would answer
-- now, and changes nothing but the count of hits.
pub get_distance_matrix-again :
    (digest : List Place → ℕ) (env env' : Env) (c c' : Clock) (ps qs : List Place)
    (preference preference' : Preference) (s : DistanceCache) (m : Matrix) (source : Source) (n : ℕ)
    → let first = get_distance_matrix digest env c ps preference s in
      first.0 ≡ ok (computed m source n)
      → generate_places_hash digest qs ≡ generate_places_hash digest ps
      → c'.found ≤ c.saved + s.cache_ttl * 1000
      → get_distance_matrix digest env' c' qs preference' first.1 ≡ (
        ok (hit m source ((c'.aged - c.saved) / 1000)),
        record (first.1) { hits = first.1.hits + 1 },
      )
unfolding get_distance_matrix age_seconds is_expired
get_distance_matrix-again digest env env' c c' ps qs preference preference' s m source n done same
      soon =
    let key = generate_places_hash digest ps in
    let x = entry c key m source s.cache_ttl in
    let kept =
      lookup-answer c key (length ps) n (calculate_distance_matrix env ps preference)
        (get_from_cache c.found key s).0 (get_from_cache c.found key s).1 m source done in
    answer-fresh digest env' c' qs preference' (get_distance_matrix digest env c ps preference s).1
      x
      (rw same
        (kept ∙ ap (λ ttl. some (entry c key m source ttl)) (get_from_cache-ttl c.found key s)))
      (ground (arith, soon))
