-- ===== src/DayRoute/Links.antt =====
-- The transfers between days, entered once (utils/hybrid_optimizer_v31.py,
-- `_inject_intercity_transfers_between_days`).
use goveling_ml.Prelude.{
  ℕ, suc, ◌+◌, ◌≤◌, ◌<◌, ◌≡◌, refl, ap, ◌⊎◌, inl, inr, true, false, Option, none, some, List, [],
  ◌∷◌, ltb, arith, Bool-cases,
}
use goveling_ml.Schedule.Data.{Location, HomeBase}
use goveling_ml.DayRoute.Data.{Transfer, BaseInfo, Day}
use goveling_ml.DayRoute.Repeat.{inject_after-AllServed, inject_after_again}
use goveling_ml.DayRoute.Between.{
  RobustReply, Passage, passage, gap, transfer_exists, insert_transfer, connect_bases, connect,
  inject_after, inject_intercity_transfers_between_days,
}

-- A transfer whose length differs by less than one kilometre.
abbrev HasLike : ℕ → List Transfer → Type 0
HasLike d [] = ⊥
HasLike d (t ∷ ts) = ((t.distance_m < d + 1000) × (d < t.distance_m + 1000)) ⊎ HasLike d ts

transfer_exists→HasLike : (d : ℕ) (ts : List Transfer) → transfer_exists d ts ≡ true → HasLike d ts
transfer_exists→HasLike d [] h = cc
transfer_exists→HasLike d (t ∷ ts) h = elim (Bool-cases (ltb (gap t.distance_m d) 1000)) [
  | inl like ↦ inl (ground arith, ground arith)
  | inr unlike ↦ inr (transfer_exists→HasLike d ts (rw unlike at h))
]

transfer_exists→none : (d : ℕ) (ts : List Transfer) → transfer_exists d ts ≡ false → ¬ HasLike d ts
transfer_exists→none d [] h x = x
transfer_exists→none d (t ∷ ts) h (inl (a, b)) = ground arith
transfer_exists→none d (t ∷ ts) h (inr x) = transfer_exists→none d ts (ground arith) x

-- A transfer that stands in for the way from one base to the other.
abbrev IsWay : HomeBase → HomeBase → Passage → Transfer → Type 0
IsWay from to way t =
    (t.origin ≡ from.location)
    × (t.destination ≡ to.location)
    × (t.distance_m ≡ way.distance_m)
    × (t.duration_minutes ≡ way.minutes)
    × (t.is_between_days ≡ true)

module _ {A : Type 0} (distance : Location → Location → ℕ)
    (robust : ℕ → Location → Location → RobustReply) where
  -- The day is left alone, since it has a transfer of about that length; or it has none, and begins
  -- with the way from the one base to the other, its other transfers after it.
  abbrev Connects : HomeBase → HomeBase → Passage → Day A → Day A → Type 0
  Connects from to way before after =
      (HasLike way.distance_m before.transfers × (after ≡ before))
      ⊎ ((¬ HasLike way.distance_m before.transfers)
          × ((t : Transfer) × IsWay from to way t × (after.transfers ≡ t ∷ before.transfers)))

  -- What has become of the second of two days: nothing where a base is missing or they are at most
  -- 30 km apart.
  abbrev Linked : ℕ → Option BaseInfo → Option BaseInfo → Day A → Day A → Type 0
  Linked n none b before after = after ≡ before
  Linked n (some a) none before after = after ≡ before
  Linked n (some a) (some b) before after =
      let from = a.home_base in
      let to = b.home_base in
      let far = distance from.location to.location in
      ((far ≤ 30000) × (after ≡ before))
      ⊎ ((30000 < far)
          × Connects from to (passage far (robust n from.location to.location)) before after)

  insert_transfer-Connects :
      (from to : HomeBase) (way : Passage) (d : Day A)
      → Connects from to way d (insert_transfer distance robust from to way d)
  unfolding insert_transfer
  insert_transfer-Connects from to way d =
      elim (Bool-cases (transfer_exists way.distance_m d.transfers)) [
        | inl there ↦
            rw there (inl (transfer_exists→HasLike way.distance_m d.transfers there, refl))
        | inr missing ↦ rw missing (
            inr (
              transfer_exists→none way.distance_m d.transfers missing,
              (_, (refl, refl, refl, refl, refl), refl),
            ))
      ]

  connect_lem :
      (n : ℕ) (day next : Day A)
      → Linked n day.base next.base next (connect distance robust n day next)
  unfolding connect
  connect_lem n day next = bases day.base next.base
    where
      bases : (a b : Option BaseInfo) → Linked n a b next (connect_bases distance robust n a b next)
      bases none b = refl
      bases (some a) none = refl
      bases (some a) (some b) =
          elim (Bool-cases (ltb 30000 (distance a.home_base.location b.home_base.location))) [
            | inl far ↦
                rw far (inr (ground arith, insert_transfer-Connects a.home_base b.home_base _ next))
            | inr near ↦ rw near (inl (ground arith, refl))
          ]

  abbrev AllLinked : ℕ → Day A → List (Day A) → List (Day A) → Type 0
  AllLinked n day [] [] = Unit
  AllLinked n day (next ∷ days) (after ∷ afters) =
      Linked n day.base next.base next after × AllLinked (suc n) next days afters
  AllLinked n day [] (after ∷ afters) = ⊥
  AllLinked n day (next ∷ days) [] = ⊥

  inject_after-AllLinked :
      (n : ℕ) (day : Day A) (days : List (Day A))
      → AllLinked n day days (inject_after distance robust n day days)
  inject_after-AllLinked n day [] = tt
  inject_after-AllLinked n day (next ∷ days) =
      (connect_lem n day next, inject_after-AllLinked (suc n) next days)

  -- Day by day what an injection has done; the first day has none before it.
  abbrev pub IsLinked : List (Day A) → List (Day A) → Type 0
  IsLinked [] [] = Unit
  IsLinked (day ∷ days) (after ∷ afters) = (after ≡ day) × AllLinked 0 day days afters
  IsLinked [] (after ∷ afters) = ⊥
  IsLinked (day ∷ days) [] = ⊥

  -- The injection keeps the first day, and every day whose base is at most 30 km from the base of the
  -- day before it or where a base is missing. Any other day gets, before its transfers, the way from
  -- the one base to the other as a transfer, unless it has a transfer already, wherever it leads,
  -- whose length differs from that way by less than one kilometre; it is kept then. Injecting once
  -- more, with the same answers of the routing service, changes no day.
  pub inject-IsLinked :
      (days : List (Day A))
      → IsLinked days (inject_intercity_transfers_between_days distance robust days)
        × (inject_intercity_transfers_between_days distance robust
              (inject_intercity_transfers_between_days distance robust days)
            ≡ inject_intercity_transfers_between_days distance robust days)
  unfolding inject_intercity_transfers_between_days
  inject-IsLinked [] = (tt, refl)
  inject-IsLinked (day ∷ days) =
      let served = inject_after-AllServed distance robust 0 day days in
      (
        (refl, inject_after-AllLinked 0 day days),
        ap (λ rest. day ∷ rest) (inject_after_again distance robust 0 day _ served),
      )
