-- ===== src/ApiCache/Sound.antt =====
-- Dictionaries whose values all satisfy a predicate.
use mathlib.Core.Path.{subst}
use goveling_ml.Prelude.{
  ℕ, ◌≡◌, true, Option, none, some, List, [], ◌∷◌, ◌==◌, arith, All, in_either, both,
}
use goveling_ml.Prelude.Dict.{lookup, set, erase, erase_all}

module _ {V : Type 0} (P : ℕ → V → Type 0) where
  abbrev pub AllEntries : List (ℕ × V) → Type 0
  AllEntries d = All (λ e. P e.0 e.1) d

  pub set-AllEntries :
      (k : ℕ) (v : V) (d : List (ℕ × V)) → P k v → AllEntries d → AllEntries (set k v d)
  set-AllEntries k v [] p h = (p, tt)
  set-AllEntries k v ((j, w) ∷ d) p h =
      both AllEntries (j == k) (p, h.1) (h.0, set-AllEntries k v d p h.1)

  pub erase-AllEntries : (k : ℕ) (d : List (ℕ × V)) → AllEntries d → AllEntries (erase k d)
  erase-AllEntries k [] h = tt
  erase-AllEntries k ((j, w) ∷ d) h = both AllEntries (j == k) h.1 (h.0, erase-AllEntries k d h.1)

  pub erase_all-AllEntries :
      (ks : List ℕ) (d : List (ℕ × V)) → AllEntries d → AllEntries (erase_all ks d)
  erase_all-AllEntries [] d h = h
  erase_all-AllEntries (k ∷ ks) d h = erase_all-AllEntries ks (erase k d) (erase-AllEntries k d h)

  -- What is found satisfies the predicate.
  abbrev pub Holds : ℕ → Option V → Type 0
  Holds k none = Unit
  Holds k (some v) = P k v

  pub lookup-Holds : (k : ℕ) (d : List (ℕ × V)) → AllEntries d → Holds k (lookup k d)
  lookup-Holds k [] h = tt
  lookup-Holds k ((j, w) ∷ d) h =
      in_either (Holds k) (j == k) (λ same. subst (λ i. P i w) (equal same) h.0)
        (λ other. lookup-Holds k d h.1)
    where
      equal : (j == k) ≡ true → j ≡ k
      equal same = ground arith
