-- ===== src/ApiCache/Minutes.antt =====
-- The decorator `cache_result` of utils/performance_cache.py with its cleanup: one dictionary for the
-- results and one for the times at which they expire. `hash_key` is the text of the key.
use goveling_ml.Prelude.{
  ℕ, ◌+◌, Bool, true, false, Option, none, some, List, [], ◌∷◌, map, ltb, filter_by,
}
use goveling_ml.Prelude.Exceptions.{Result, ok, err}
use goveling_ml.Prelude.Dict.{lookup, set, erase_all}
use goveling_ml.ApiCache.{Times, Event, called, cleared}

pub record Memory (V : Type 0) : Type 0 where
  pub results : List (ℕ × V)
  pub expiry : List (ℕ × ℕ)

abbrev pub before : ℕ → Option ℕ → Bool
before now none = false
before now (some expiry_time) = ltb now expiry_time

module _ {V : Type 0} where
  abbrev pub if_fresh : Bool → Option V → Option V
  if_fresh true o = o
  if_fresh false o = none

  -- The result that is kept, if it has a time of expiry that is not over.
  abbrev pub recall : ℕ → ℕ → Memory V → Option V
  recall now key m = if_fresh (before now (lookup key m.expiry)) (lookup key m.results)

  unfoldable pub cleanup_expired_cache : ℕ → Memory V → Memory V
  cleanup_expired_cache now m =
      let keys = map (λ e. e.0) (filter_by (λ e. ltb e.1 now) m.expiry) in
      record { results = erase_all keys m.results; expiry = erase_all keys m.expiry }

module _ {V Call : Type 0} (hash_key : Call → ℕ) (expiry_time : ℕ)
    (function : Call → Result V) where
  abbrev pub remember : Times → Call → Result V → Memory V → Result V × Memory V
  remember t call (ok r) m = (
    ok r,
    record {
      results = set (hash_key call) r m.results;
      expiry = set (hash_key call) (t.kept + expiry_time) m.expiry;
    },
  )
  remember t call (err e) m = (err e, m)

  abbrev pub unless_recalled : Times → Call → Option V → Memory V → Result V × Memory V
  unless_recalled t call (some v) m = (ok v, m)
  unless_recalled t call none m = remember t call (function call) m

  unfoldable pub cache_result : Times → Call → Memory V → Result V × Memory V
  cache_result t call m = unless_recalled t call (recall t.asked (hash_key call) m) m

  unfoldable pub results_of : List (Event Call) → Memory V → List (Result V)
  unfolding cache_result cleanup_expired_cache
  results_of [] m = []
  results_of (called t call ∷ events) m =
      let (r, later) = cache_result t call m in r ∷ results_of events later
  results_of (cleared now ∷ events) m = results_of events (cleanup_expired_cache now m)
