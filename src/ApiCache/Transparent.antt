-- ===== src/ApiCache/Transparent.antt =====
-- That the decorator of utils/google_cache.py does not change what a function returns.
use goveling_ml.Prelude.{ℕ, ◌≡◌, refl, sym, ap, ◌∙◌, Option, none, some, List, [], ◌∷◌, both}
use goveling_ml.Prelude.Exceptions.{Result, ok, err}
use goveling_ml.Prelude.Dict.{lookup}
use goveling_ml.ApiCache.{
  Entry, Cache, is_expired, unless_expired, get, save, expired_keys, clear_expired, Times,
  keep_result, unless_cached, cached_call, Event, called, cleared, run, uncached,
}
use goveling_ml.ApiCache.Sound.{
  AllEntries, set-AllEntries, erase-AllEntries, erase_all-AllEntries, Holds, lookup-Holds,
}

module _ {V Call : Type 0} (hash_key : Call → ℕ) (default_ttl ttl : ℕ)
    (function : Call → Result (Option V))
    (injective : (c d : Call) → hash_key c ≡ hash_key d → c ≡ d) where
  -- An entry holds what the function returns for the call of its key.
  abbrev IsResult : ℕ → Entry V → Type 0
  IsResult k e = (c : Call) → hash_key c ≡ k → function c ≡ ok e.value

  -- A value is what the function returns, and the cache is sound.
  abbrev IsHit : Call → Option V × Cache V → Type 0
  IsHit c (none, cache) = AllEntries IsResult cache
  IsHit c (some v, cache) = (function c ≡ ok (some v)) × AllEntries IsResult cache

  hit :
      (c : Call) (o : Option V) (cache : Cache V)
      → function c ≡ ok o
      → AllEntries IsResult cache
      → IsHit c (o, cache)
  hit c none cache e h = h
  hit c (some v) cache e h = (e, h)

  unless_expired-IsHit :
      (now : ℕ) (c : Call) (cache : Cache V) (o : Option (Entry V))
      → Holds IsResult (hash_key c) o
      → AllEntries IsResult cache
      → IsHit c (unless_expired now (hash_key c) cache o)
  unless_expired-IsHit now c cache none p h = h
  unless_expired-IsHit now c cache (some e) p h =
      both (IsHit c) (is_expired now e) (erase-AllEntries IsResult (hash_key c) cache h)
        (hit c e.value cache (p c refl) h)

  -- A call returns what the function returns, and the cache stays sound.
  abbrev IsTransparent : Call → Result (Option V) × Cache V → Type 0
  IsTransparent c (r, cache) = (r ≡ function c) × AllEntries IsResult cache

  keep_result-IsTransparent :
      (t : Times) (c : Call) (r : Result (Option V)) (cache : Cache V)
      → function c ≡ r
      → AllEntries IsResult cache
      → IsTransparent c (keep_result hash_key default_ttl ttl function t c r cache)
  unfolding save
  keep_result-IsTransparent t c (ok r) cache e h = (
    sym e,
    set-AllEntries IsResult (hash_key c) _ cache (λ d same. ap function (injective d c same) ∙ e) h,
  )
  keep_result-IsTransparent t c (err x) cache e h = (sym e, h)

  unless_cached-IsTransparent :
      (t : Times) (c : Call) (found : Option V × Cache V)
      → IsHit c found
      → IsTransparent c (unless_cached hash_key default_ttl ttl function t c found)
  unless_cached-IsTransparent t c (some v, cache) h = (sym h.0, h.1)
  unless_cached-IsTransparent t c (none, cache) h =
      keep_result-IsTransparent t c (function c) cache refl h

  cached_call-IsTransparent :
      (t : Times) (c : Call) (cache : Cache V)
      → AllEntries IsResult cache
      → IsTransparent c (cached_call hash_key default_ttl ttl function t c cache)
  unfolding cached_call get
  cached_call-IsTransparent t c cache h = unless_cached-IsTransparent t c _ (
      unless_expired-IsHit t.asked c cache (lookup (hash_key c) cache)
        (lookup-Holds IsResult (hash_key c) cache h) h)

  from_sound :
      (events : List (Event Call)) (cache : Cache V)
      → AllEntries IsResult cache
      → run hash_key default_ttl ttl function events cache
        ≡ uncached hash_key default_ttl ttl function events
  unfolding run clear_expired
  from_sound [] cache h = refl
  from_sound (called t c ∷ events) cache h =
      let (same, sound) = cached_call-IsTransparent t c cache h in
      ap
        (λ r.
          r
          ∷ run hash_key default_ttl ttl function events
              (cached_call hash_key default_ttl ttl function t c cache).1)
        same
      ∙ ap (λ rs. function c ∷ rs) (from_sound events _ sound)
  from_sound (cleared now ∷ events) cache h =
      from_sound events _ (erase_all-AllEntries IsResult (expired_keys now cache) cache h)

  -- If no two calls have the same key and the function returns or raises the same whenever it is
  -- called with the same arguments, then through any sequence of calls and cleanups, at any times
  -- and for any time to live, the decorated function returns what the function itself does.
  pub run-eq-uncached :
      (events : List (Event Call))
      → run hash_key default_ttl ttl function events []
        ≡ uncached hash_key default_ttl ttl function events
  run-eq-uncached events = from_sound events [] tt
