-- ===== src/Tests/Caches.antt =====
-- The decorators of utils/google_cache.py and utils/performance_cache.py.
use goveling_ml.Prelude.{ℕ, ◌+◌, ◌≡◌, refl, ◌==◌, if◌then◌else◌, Option, none, some, List, [], ◌∷◌}
use goveling_ml.Prelude.Exceptions.{Result, ok, err, timeout_error}
use goveling_ml.ApiCache.{
  Times, get, save, clear_expired, cached_call, Event, called, cleared, run, uncached,
}
use goveling_ml.ApiCache.Transparent.{run-eq-uncached}

abbrev key : ℕ → ℕ
key n = n

-- Nothing is found for 0, and 9 takes too long.
abbrev search_places : ℕ → Result (Option ℕ)
search_places n =
    if n == 0 then ok none else if n == 9 then err timeout_error else ok (some (n + 100))

abbrev at : ℕ → Times
at t = record { asked = t; kept = t + 50 }

kept :
    (cached_call key 1800000 1000 search_places (at 10) 5 []).1
    ≡ (5, record { value = some 105; expires_at = 1060; created_at = 60 }) ∷ []
unfolding cached_call get save
kept = refl

-- The entry has expired, and None is never found in the cache.
expired : (get {V = ℕ} 1061 5 (save 1800000 60 5 (some 105) (some 1000) [])).0 ≡ none
unfolding get save
expired = refl

none_twice :
    (cached_call key 1800000 1000 search_places
      (at 90)
      0
      (cached_call key 1800000 1000 search_places (at 10) 0 []).1).1
    ≡ (0, record { value = none; expires_at = 1140; created_at = 140 }) ∷ []
unfolding cached_call get save
none_twice = refl

removed : (clear_expired {V = ℕ} 2000 (save 1800000 60 5 (some 105) (some 1000) [])).0 ≡ 1
unfolding clear_expired save
removed = refl

abbrev traffic : List (Event ℕ)
traffic =
    called (at 10) 5
    ∷ called (at 20) 5
    ∷ cleared 5000
    ∷ called (at 6000) 9
    ∷ called (at 6100) 5
    ∷ []

run-eq-uncached_example :
    run key 1800000 1000 search_places traffic [] ≡ uncached key 1800000 1000 search_places traffic
run-eq-uncached_example = run-eq-uncached key 1800000 1000 search_places (λ c d same. same) traffic
