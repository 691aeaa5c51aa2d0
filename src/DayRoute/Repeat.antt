-- ===== src/DayRoute/Repeat.antt =====
-- An injection of the transfers between days leaves nothing for another one to do
-- (utils/hybrid_optimizer_v31.py, `_inject_intercity_transfers_between_days`).
use goveling_ml.Prelude.{
  ℕ, suc, ◌≡◌, refl, ap, inl, inr, true, not, ◌||◌, Option, none, some, List, [], ◌∷◌, ltb, arith,
  Bool-cases, both,
}
use goveling_ml.Schedule.Data.{Location, HomeBase}
use goveling_ml.DayRoute.Data.{Transfer, BaseInfo, Day}
use goveling_ml.DayRoute.Between.{
  RobustReply, Passage, passage, transfer_exists, insert_transfer, connect_bases, connect,
  inject_after,
}

module _ (distance : Location → Location → ℕ) (robust : ℕ → Location → Location → RobustReply) where
  -- The second of two days whose bases are over 30 km apart has what counts as their transfer.
  abbrev pub Served : ℕ → Option BaseInfo → Option BaseInfo → List Transfer → Type 0
  Served n none b ts = Unit
  Served n (some a) none ts = Unit
  Served n (some a) (some b) ts =
      let from = a.home_base.location in
      let to = b.home_base.location in
      let far = distance from to in
      not (ltb 30000 far) || transfer_exists (passage far (robust n from to)).distance_m ts ≡ true

module _ {A : Type 0} (distance : Location → Location → ℕ)
    (robust : ℕ → Location → Location → RobustReply) where
  abbrev pub AllServed : ℕ → Option BaseInfo → List (Day A) → Type 0
  AllServed n base [] = Unit
  AllServed n base (d ∷ ds) =
      Served distance robust n base d.base d.transfers × AllServed (suc n) d.base ds

  insert_transfer-exists :
      (from to : HomeBase) (way : Passage) (d : Day A)
      → transfer_exists way.distance_m (insert_transfer distance robust from to way d).transfers
        ≡ true
  unfolding insert_transfer
  insert_transfer-exists from to way d = ground arith

  insert_transfer_again :
      (from to : HomeBase) (way : Passage) (d : Day A)
      → transfer_exists way.distance_m d.transfers ≡ true
      → insert_transfer distance robust from to way d ≡ d
  unfolding insert_transfer
  insert_transfer_again from to way d h = rw h refl

  insert_transfer-base :
      (from to : HomeBase) (way : Passage) (d : Day A)
      → (insert_transfer distance robust from to way d).base ≡ d.base
  unfolding insert_transfer
  insert_transfer-base from to way d =
      both (λ (e : Day A). e.base ≡ d.base) (transfer_exists way.distance_m d.transfers) refl refl

  connect-base : (n : ℕ) (day next : Day A) → (connect distance robust n day next).base ≡ next.base
  unfolding connect
  connect-base n day next = bases day.base next.base
    where
      bases : (a b : Option BaseInfo) → (connect_bases distance robust n a b next).base ≡ next.base
      bases none b = refl
      bases (some a) none = refl
      bases (some a) (some b) =
          both (λ (e : Day A). e.base ≡ next.base)
            (ltb 30000 (distance a.home_base.location b.home_base.location))
            (insert_transfer-base a.home_base b.home_base _ next) refl

  connect-Served :
      (n : ℕ) (day next : Day A)
      → Served distance robust n day.base next.base (connect distance robust n day next).transfers
  unfolding connect
  connect-Served n day next = bases day.base next.base
    where
      bases :
          (a b : Option BaseInfo)
          → Served distance robust n a b (connect_bases distance robust n a b next).transfers
      bases none b = tt
      bases (some a) none = tt
      bases (some a) (some b) =
          elim (Bool-cases (ltb 30000 (distance a.home_base.location b.home_base.location))) [
            | inl far ↦ rw far (insert_transfer-exists a.home_base b.home_base _ next)
            | inr near ↦ rw near refl
          ]

  connect_again :
      (n : ℕ) (day next : Day A)
      → Served distance robust n day.base next.base next.transfers
      → connect distance robust n day next ≡ next
  unfolding connect
  connect_again n day next h = bases day.base next.base h
    where
      bases :
          (a b : Option BaseInfo)
          → Served distance robust n a b next.transfers
          → connect_bases distance robust n a b next ≡ next
      bases none b k = refl
      bases (some a) none k = refl
      bases (some a) (some b) k =
          elim (Bool-cases (ltb 30000 (distance a.home_base.location b.home_base.location))) [
            | inl far ↦ rw far (insert_transfer_again a.home_base b.home_base _ next (rw far at k))
            | inr near ↦ rw near refl
          ]

  pub inject_after-AllServed :
      (n : ℕ) (day : Day A) (days : List (Day A))
      → AllServed n day.base (inject_after distance robust n day days)
  inject_after-AllServed n day [] = tt
  inject_after-AllServed n day (next ∷ days) =
      rw (connect-base n day next)
        (connect-Served n day next, inject_after-AllServed (suc n) next days)

  pub inject_after_again :
      (n : ℕ) (day : Day A) (days : List (Day A))
      → AllServed n day.base days
      → inject_after distance robust n day days ≡ days
  inject_after_again n day [] h = refl
  inject_after_again n day (next ∷ days) (h, k) =
      rw (connect_again n day next h)
        (ap (λ rest. next ∷ rest) (inject_after_again (suc n) next days k))
