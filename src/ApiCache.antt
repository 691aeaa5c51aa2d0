-- ===== src/ApiCache.antt =====
-- `GoogleAPICache` and the decorator `cache_google_api` of utils/google_cache.py. A call is the name
-- of a function with its arguments; `hash_key` is the MD5 of its text. Times are milliseconds.
pub mod Minutes
pub mod Sound
pub mod Transparent
pub mod Recall
use goveling_ml.Prelude.{
  ℕ, zero, suc, ◌+◌, Bool, true, false, Option, none, some, List, [], ◌∷◌, map, ltb, ◌==◌,
  if◌then◌else◌, length, filter_by,
}
use goveling_ml.Prelude.Exceptions.{Result, ok, err}
use goveling_ml.Prelude.Dict.{lookup, set, erase, erase_all}

-- A value is an Option, since a function may return None.
pub record Entry (V : Type 0) : Type 0 where
  pub value : Option V
  pub expires_at : ℕ
  pub created_at : ℕ

abbrev pub Cache : Type 0 → Type 0
Cache V = List (ℕ × Entry V)

-- `ttl or self.default_ttl`
abbrev pub ttl_or : ℕ → Option ℕ → ℕ
ttl_or default_ttl none = default_ttl
ttl_or default_ttl (some ttl) = if ttl == 0 then default_ttl else ttl

module _ {V : Type 0} where
  abbrev pub is_expired : ℕ → Entry V → Bool
  is_expired now e = ltb e.expires_at now

  -- What `get` does with what stands under the key: an expired entry is deleted.
  abbrev pub unless_expired : ℕ → ℕ → Cache V → Option (Entry V) → Option V × Cache V
  unless_expired now key cache none = (none, cache)
  unless_expired now key cache (some e) =
      if is_expired now e then (none, erase key cache) else (e.value, cache)

  unfoldable pub get : ℕ → ℕ → Cache V → Option V × Cache V
  get now key cache = unless_expired now key cache (lookup key cache)

  unfoldable pub save : ℕ → ℕ → ℕ → Option V → Option ℕ → Cache V → Cache V
  save default_ttl now key result ttl cache =
      set key
        (record { value = result; expires_at = now + ttl_or default_ttl ttl; created_at = now })
        cache

  abbrev pub expired_keys : ℕ → Cache V → List ℕ
  expired_keys now cache = map (λ e. e.0) (filter_by (λ e. is_expired now e.1) cache)

  unfoldable pub clear_expired : ℕ → Cache V → ℕ × Cache V
  clear_expired now cache = let keys = expired_keys now cache in (length keys, erase_all keys cache)

-- The clock when the cache is asked and when the result is kept.
pub record Times : Type 0 where
  pub asked : ℕ
  pub kept : ℕ

-- What happens to the cache: a call, or the removal of what has expired.
pub data Event (Call : Type 0) : Type 0 where
  called : Times → Call → Event Call
  cleared : ℕ → Event Call

module _ {V Call : Type 0} (hash_key : Call → ℕ) (default_ttl ttl : ℕ)
    (function : Call → Result (Option V)) where
  -- The result of the function is kept, also if it is None; an exception is passed on.
  abbrev pub keep_result : Times → Call → Result (Option V) → Cache V → Result (Option V) × Cache V
  keep_result t call (ok r) cache =
      (ok r, save default_ttl t.kept (hash_key call) r (some ttl) cache)
  keep_result t call (err e) cache = (err e, cache)

  abbrev pub unless_cached : Times → Call → Option V × Cache V → Result (Option V) × Cache V
  unless_cached t call (some v, cache) = (ok (some v), cache)
  unless_cached t call (none, cache) = keep_result t call (function call) cache

  unfoldable pub cached_call : Times → Call → Cache V → Result (Option V) × Cache V
  unfolding get save
  cached_call t call cache = unless_cached t call (get t.asked (hash_key call) cache)

  -- The results of the calls, one after the other.
  unfoldable pub run : List (Event Call) → Cache V → List (Result (Option V))
  unfolding cached_call clear_expired
  run [] cache = []
  run (called t call ∷ events) cache =
      let (r, later) = cached_call t call cache in r ∷ run events later
  run (cleared now ∷ events) cache = run events (clear_expired now cache).1

  -- The results without a cache.
  abbrev pub uncached : List (Event Call) → List (Result (Option V))
  uncached [] = []
  uncached (called t call ∷ events) = function call ∷ uncached events
  uncached (cleared now ∷ events) = uncached events
