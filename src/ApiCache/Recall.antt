-- ===== src/ApiCache/Recall.antt =====
-- That the decorator of utils/performance_cache.py does not change what a function returns.
use goveling_ml.Prelude.{
  ℕ, ◌≡◌, refl, sym, ap, ◌∙◌, Bool, true, false, Option, none, some, List, [], ◌∷◌, map, ltb,
  filter_by,
}
use goveling_ml.Prelude.Exceptions.{Result, ok, err}
use goveling_ml.Prelude.Dict.{lookup}
use goveling_ml.ApiCache.{Times, Event, called, cleared}
use goveling_ml.ApiCache.Minutes.{
  Memory, before, if_fresh, cleanup_expired_cache, remember, unless_recalled, cache_result,
  results_of,
}
use goveling_ml.ApiCache.Sound.{
  AllEntries, set-AllEntries, erase_all-AllEntries, Holds, lookup-Holds,
}

module _ {V Call : Type 0} (hash_key : Call → ℕ) (expiry_time : ℕ) (function : Call → Result V)
    (injective : (c d : Call) → hash_key c ≡ hash_key d → c ≡ d) where
  abbrev IsResult : ℕ → V → Type 0
  IsResult k v = (c : Call) → hash_key c ≡ k → function c ≡ ok v

  abbrev IsSound : Memory V → Type 0
  IsSound m = AllEntries IsResult m.results

  abbrev IsTransparent : Call → Result V × Memory V → Type 0
  IsTransparent c (r, m) = (r ≡ function c) × IsSound m

  remember-IsTransparent :
      (t : Times) (c : Call) (r : Result V) (m : Memory V)
      → function c ≡ r
      → IsSound m
      → IsTransparent c (remember hash_key expiry_time function t c r m)
  remember-IsTransparent t c (ok r) m e h = (
    sym e,
    set-AllEntries IsResult (hash_key c) r m.results
        (λ d same. ap function (injective d c same) ∙ e) h,
  )
  remember-IsTransparent t c (err x) m e h = (sym e, h)

  unless_recalled-IsTransparent :
      (t : Times) (c : Call) (fresh : Bool) (o : Option V) (m : Memory V)
      → Holds IsResult (hash_key c) o
      → IsSound m
      → IsTransparent c (unless_recalled hash_key expiry_time function t c (if_fresh fresh o) m)
  unless_recalled-IsTransparent t c true (some v) m p h = (sym (p c refl), h)
  unless_recalled-IsTransparent t c true none m p h =
      remember-IsTransparent t c (function c) m refl h
  unless_recalled-IsTransparent t c false o m p h = remember-IsTransparent t c (function c) m refl h

  cache_result-IsTransparent :
      (t : Times) (c : Call) (m : Memory V)
      → IsSound m
      → IsTransparent c (cache_result hash_key expiry_time function t c m)
  unfolding cache_result
  cache_result-IsTransparent t c m h =
      unless_recalled-IsTransparent t c (before t.asked (lookup (hash_key c) m.expiry))
        (lookup (hash_key c) m.results) m (lookup-Holds IsResult (hash_key c) m.results h) h

  -- What the calls return without a memory.
  abbrev pub direct : List (Event Call) → List (Result V)
  direct [] = []
  direct (called t c ∷ events) = function c ∷ direct events
  direct (cleared now ∷ events) = direct events

  from_sound :
      (events : List (Event Call)) (m : Memory V)
      → IsSound m
      → results_of hash_key expiry_time function events m ≡ direct events
  unfolding results_of cleanup_expired_cache
  from_sound [] m h = refl
  from_sound (called t c ∷ events) m h =
      let (same, sound) = cache_result-IsTransparent t c m h in
      ap
        (λ r.
          r
          ∷ results_of hash_key expiry_time function events
              (cache_result hash_key expiry_time function t c m).1)
        same
      ∙ ap (λ rs. function c ∷ rs) (from_sound events _ sound)
  from_sound (cleared now ∷ events) m h = from_sound events _ (
      erase_all-AllEntries IsResult (map (λ e. e.0) (filter_by (λ e. ltb e.1 now) m.expiry))
        m.results h)

  -- The same for the decorator with two dictionaries: if no two calls have the same key and the
  -- function is constant, then through any sequence of calls and cleanups the decorated function
  -- returns what the function itself does.
  pub results_of-eq-direct :
      (events : List (Event Call))
      → results_of hash_key expiry_time function events (record { results = []; expiry = [] })
        ≡ direct events
  results_of-eq-direct events = from_sound events _ tt
