-- ===== src/DistanceCache/Bounds.antt =====
-- The size and the counters of the cache of services/ortools_distance_cache.py.
use goveling_ml.Prelude.{
  ℕ, suc, ◌+◌, ◌-◌, ◌/◌, ◌≤◌, ◌<◌, ◌≡◌, refl, inl, inr, Option, none, some, List, [], ◌∷◌, map, leb,
  arith, length, take, max, count_by, Bool-cases, Option-cases,
}
use goveling_ml.Prelude.Exceptions.{Result, ok, err}
use goveling_ml.Prelude.Sort.{sorted, length-sorted, count_by-sorted}
use goveling_ml.Prelude.Dict.{
  lookup, erase, erase_all, has_key, IsUnique, length-set, length-erase, length-erase_all,
  length-erase_present, set-IsUnique, erase-IsUnique, erase_all-IsUnique, filter-IsUnique,
  length-filter,
}
use goveling_ml.DistanceCache.Matrix.{
  Place, Matrix, Env, Preference, Source, calculate_distance_matrix,
}
use goveling_ml.DistanceCache.Store.{
  CachedDistanceMatrix, Entries, DistanceCache, Clock, by_timestamp, is_expired, get_from_cache,
  remove_expired, oldest_keys, cleanup_cache, make_room, save_to_cache, answer, get_distance_matrix,
  generate_places_hash,
}

-- The cache holds at most `max_cache_size` entries, no key twice, and `cache_size` counts them.
pub record IsValid (s : DistanceCache) : Type 0 where
  pub positive : 0 < s.max_cache_size
  pub unique : IsUnique s.cache
  pub bounded : length s.cache ≤ s.max_cache_size
  pub counted : s.cache_size ≡ length s.cache

-- What does not depend on the statistics of hits and misses.
abbrev Same : DistanceCache → DistanceCache → Type 0
Same s t =
    (s.cache ≡ t.cache) × (s.max_cache_size ≡ t.max_cache_size) × (s.cache_size ≡ t.cache_size)

Same-IsValid : (s t : DistanceCache) → Same s t → IsValid s → IsValid t
Same-IsValid s t (e, m, n) v = record {
  positive = omega (arith, m, v.positive);
  unique = rw e at v.unique;
  bounded = rw (e, m) at v.bounded;
  counted = rw (e, n) at v.counted;
}

get_from_cache-IsValid :
    (now key : ℕ) (s : DistanceCache) → IsValid s → IsValid (get_from_cache now key s).1
unfolding get_from_cache
get_from_cache-IsValid now key s v = elim (Option-cases (lookup key s.cache)) [
  | inl missing ↦ rw missing v
  | inr (c, e) ↦ elim (Bool-cases (is_expired now c)) [
    | inl old ↦
        rw (e, old)
          (record {
            positive = v.positive;
            unique = erase-IsUnique key s.cache v.unique;
            bounded = omega (arith, length-erase key s.cache, v.bounded);
            counted = refl;
          })
    | inr fresh ↦ rw (e, fresh) v
  ]
]

-- Erasing the oldest keys of entries leaves fewer.
erase_sorted-lt :
    (d : Entries) (n : ℕ) (entries : Entries)
    → ((i : ℕ) → count_by (has_key i) entries ≡ count_by (has_key i) d)
    → 0 < length entries
    → length (erase_all (take (suc n) (map (λ e. e.0) entries)) d) < length d
erase_sorted-lt d n [] same h = absurd (omega arith)
erase_sorted-lt d n ((k, v) ∷ entries) same h = omega (
  arith,
  length-erase_all (take n (map (λ e. e.0) entries)) (erase k d),
  length-erase_present k d (ground (arith, same k)),
)

erase_oldest-lt : (d : Entries) → 0 < length d → length (erase_all (oldest_keys d) d) < length d
unfolding oldest_keys
erase_oldest-lt d h =
    let n = max 1 (length d / 5) - 1 in
    let e : max 1 (length d / 5) ≡ suc n = omega arith in
    rw e (
      erase_sorted-lt d n (sorted by_timestamp d) (λ i. count_by-sorted by_timestamp (has_key i) d)
        (omega (arith, length-sorted by_timestamp d)))

cleanup_cache-lt :
    (now : ℕ → ℕ) (s : DistanceCache)
    → IsValid s
    → length (cleanup_cache now s).cache < s.max_cache_size
unfolding cleanup_cache remove_expired
cleanup_cache-lt now s v =
    let kept = remove_expired now s.cache in
    let shorter : length kept ≤ length s.cache = length-filter _ s.cache in
    elim (Bool-cases (leb s.max_cache_size (length kept))) [
      | inl full ↦ rw full (
          omega (
            arith,
            shorter,
            v.bounded,
            v.positive,
            erase_oldest-lt kept (ground (arith, v.positive)),
          ))
      | inr room ↦ rw room (ground arith)
    ]

cleanup_cache-IsUnique :
    (now : ℕ → ℕ) (s : DistanceCache) → IsValid s → IsUnique (cleanup_cache now s).cache
unfolding cleanup_cache remove_expired
cleanup_cache-IsUnique now s v =
    let kept = remove_expired now s.cache in
    let u : IsUnique kept = filter-IsUnique _ s.cache v.unique in
    elim (Bool-cases (leb s.max_cache_size (length kept))) [
      | inl full ↦ rw full (erase_all-IsUnique (oldest_keys kept) kept u)
      | inr room ↦ rw room u
    ]

make_room-lt :
    (now : ℕ → ℕ) (s : DistanceCache)
    → IsValid s
    → (length (make_room now s).cache < s.max_cache_size)
      × IsUnique (make_room now s).cache
      × ((make_room now s).max_cache_size ≡ s.max_cache_size)
unfolding make_room cleanup_cache
make_room-lt now s v = elim (Bool-cases (leb s.max_cache_size (length s.cache))) [
  | inl full ↦ rw full (cleanup_cache-lt now s v, cleanup_cache-IsUnique now s v, refl)
  | inr room ↦ rw room (ground arith, v.unique, refl)
]

save_to_cache-IsValid :
    (c : Clock) (key : ℕ) (m : Matrix) (source : Source) (s : DistanceCache)
    → IsValid s
    → IsValid (save_to_cache c key m source s)
unfolding save_to_cache
save_to_cache-IsValid c key m source s v =
    let (short, u, same) = make_room-lt c.cleanup s v in
    record {
      positive = omega (arith, same, v.positive);
      unique = set-IsUnique key _ (make_room c.cleanup s).cache u;
      bounded = omega (
        arith,
        same,
        short,
        length-set key
            (record {
              matrix_data = m;
              places_hash = key;
              timestamp = c.saved;
              source = source;
              cache_ttl = s.cache_ttl;
            })
            (make_room c.cleanup s).cache,
      );
      counted = refl;
    }

answer-IsValid :
    (c : Clock) (key count : ℕ) (calculated : Result (Matrix × Source))
    (found : Option CachedDistanceMatrix) (s : DistanceCache)
    → IsValid s
    → IsValid (answer c key count calculated (found, s)).1
answer-IsValid c key count calculated (some m) s v = Same-IsValid s _ (refl, refl, refl) v
answer-IsValid c key count (err e) none s v = Same-IsValid s _ (refl, refl, refl) v
answer-IsValid c key count (ok (m, source)) none s v =
    Same-IsValid (save_to_cache c key m source (record s { misses = s.misses + 1 })) _
      (refl, refl, refl)
      (save_to_cache-IsValid c key m source (record s { misses = s.misses + 1 })
        (Same-IsValid s _ (refl, refl, refl) v))

-- Whatever a request to a valid cache finds or computes, and also where computing the matrix raises,
-- the cache keeps at most `max_cache_size` entries, no key twice, and its size in the statistics.
pub get_distance_matrix-IsValid :
    (digest : List Place → ℕ) (env : Env) (c : Clock) (places : List Place)
    (preference : Preference) (s : DistanceCache)
    → IsValid s
    → IsValid (get_distance_matrix digest env c places preference s).1
unfolding get_distance_matrix
get_distance_matrix-IsValid digest env c places preference s v =
    let key = generate_places_hash digest places in
    answer-IsValid c key (length places) (calculate_distance_matrix env places preference)
      (get_from_cache c.found key s).0 (get_from_cache c.found key s).1
      (get_from_cache-IsValid c.found key s v)
