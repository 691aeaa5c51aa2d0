-- ===== src/DistanceCache/Order.antt =====
-- The hash of services/ortools_distance_cache.py does not see the order of the places.
use goveling_ml.Prelude.{
  ℕ, ◌+◌, ◌-◌, ◌*◌, ◌/◌, ◌≤◌, ◌≡◌, refl, ap, inl, inr, Bool, true, false, List, [], ◌∷◌, sym, arith,
  Bool-cases,
}
use goveling_ml.Prelude.Exceptions.{ok}
use goveling_ml.Prelude.Sort.{insert, sorted}
use goveling_ml.Schedule.Data.{same_location}
use goveling_ml.DistanceCache.Matrix.{Place, Matrix, Env, Preference, Source}
use goveling_ml.DistanceCache.Store.{
  DistanceCache, Clock, hit, computed, coordinates_leb, get_distance_matrix, generate_places_hash,
}
use goveling_ml.DistanceCache.Freshness.{get_distance_matrix-again}

coordinates_trans :
    (p q r : Place)
    → coordinates_leb p q ≡ true
    → coordinates_leb q r ≡ true
    → coordinates_leb p r ≡ true
unfolding coordinates_leb
coordinates_trans p q r a b = ground arith

coordinates_total : (p q : Place) → coordinates_leb p q ≡ false → coordinates_leb q p ≡ true
unfolding coordinates_leb
coordinates_total p q a = ground arith

apart : {b : Bool} → b ≡ true → b ≡ false → ⊥
apart p q = cc

-- Inserting two places, of which the first goes strictly before the second, in either order.
insert-insert :
    (p q : Place) (ps : List Place)
    → coordinates_leb p q ≡ true
    → coordinates_leb q p ≡ false
    → insert coordinates_leb p (insert coordinates_leb q ps)
      ≡ insert coordinates_leb q (insert coordinates_leb p ps)
unfolding insert
insert-insert p q [] a b = rw (a, b) refl
insert-insert p q (r ∷ ps) a b = elim (Bool-cases (coordinates_leb p r)) [
  | inl first ↦ elim (Bool-cases (coordinates_leb q r)) [
    | inl x ↦ rw (first, x, a, b) refl
    | inr y ↦ rw (first, y, b, first) refl
  ]
  | inr last ↦ elim (Bool-cases (coordinates_leb q r)) [
    | inl x ↦ absurd (apart (coordinates_trans q r p x (coordinates_total p r last)) b)
    | inr y ↦ rw (last, y, last) (ap (λ rest. r ∷ rest) (insert-insert p q ps a b))
  ]
]

-- Two places at different coordinates are strictly ordered.
strict :
    (p q : Place)
    → same_location p.location q.location ≡ false
    → coordinates_leb p q ≡ true
    → coordinates_leb q p ≡ false
unfolding coordinates_leb
strict p q apart_ a = ground arith

insert_comm :
    (p q : Place) (ps : List Place)
    → same_location p.location q.location ≡ false
    → insert coordinates_leb p (insert coordinates_leb q ps)
      ≡ insert coordinates_leb q (insert coordinates_leb p ps)
insert_comm p q ps d = elim (Bool-cases (coordinates_leb p q)) [
  | inl before ↦ insert-insert p q ps before (strict p q d before)
  | inr after ↦ sym (insert-insert q p ps (coordinates_total p q after) after)
]

generate_places_hash-exchanged :
    (digest : List Place → ℕ) (p q : Place) (ps : List Place)
    → same_location p.location q.location ≡ false
    → generate_places_hash digest (q ∷ p ∷ ps) ≡ generate_places_hash digest (p ∷ q ∷ ps)
unfolding generate_places_hash sorted
generate_places_hash-exchanged digest p q ps d =
    ap digest (sym (insert_comm p q (sorted coordinates_leb ps) d))

-- Exchanging the first two places of a request, which are at different coordinates, does not change
-- its hash: while the entry lives, the matrix that was computed for the first order is returned for
-- the second one, with its rows and columns in the first order.
pub get_distance_matrix-exchanged :
    (digest : List Place → ℕ) (env env' : Env) (c c' : Clock) (p q : Place) (ps : List Place)
    (preference preference' : Preference) (s : DistanceCache) (m : Matrix) (source : Source) (n : ℕ)
    → same_location p.location q.location ≡ false
    → let first = get_distance_matrix digest env c (p ∷ q ∷ ps) preference s in
      first.0 ≡ ok (computed m source n)
      → c'.found ≤ c.saved + s.cache_ttl * 1000
      → (get_distance_matrix digest env' c' (q ∷ p ∷ ps) preference' first.1).0
        ≡ ok (hit m source ((c'.aged - c.saved) / 1000))
get_distance_matrix-exchanged digest env env' c c' p q ps preference preference' s m source n d done
      soon =
    ap (λ r. r.0)
      (get_distance_matrix-again digest env env' c c' (p ∷ q ∷ ps) (q ∷ p ∷ ps) preference
        preference' s m source n done (generate_places_hash-exchanged digest p q ps d) soon)
