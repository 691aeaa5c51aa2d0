-- ===== src/Days/Packing.antt =====
-- What `_pack_compact` and `_pack_balanced` keep (utils/hybrid_optimizer_v31.py).
use Prim.Native.String.{String}
use text.Mathlib.Text.{◌==◌ as str_eq}
use mathlib.Core.List.{append_assoc, append-nil}
use goveling_ml.Prelude.{
  ℕ, zero, suc, ◌*◌, ◌≤◌, ◌<◌, ◌≡◌, refl, sym, ap, ◌∙◌, inl, inr, Bool, List, [], ◌∷◌, ◌++◌, ltb,
  leb, arith, if◌then◌else◌, length, length-append, take, get_or, length-update_at, Bool-cases,
  count_by,
}
use goveling_ml.Prelude.Exceptions.{ok}
use goveling_ml.Schedule.Data.{Place, Cluster}
use goveling_ml.Days.Assign.{Assignment, add_to, round_robin}
use goveling_ml.Days.Conservation.{places_of, round_robin-IsAdded}
use goveling_ml.Days.Pack.{
  all_clusters, compact_step, compact_from, emptied, pack_compact, pack_balanced,
  pack_cluster_first, pack_activities_by_strategy,
}

abbrev Empty : Assignment → Type 0
Empty [] = Unit
Empty (d ∷ ds) = (d ≡ []) × Empty ds

-- The days before the current one are full, it is not, and the days after it are empty.
abbrev Filled : ℕ → Assignment → Type 0
Filled i [] = (i ≡ 0)
Filled zero (d ∷ ds) = (length d < 6) × Empty ds
Filled (suc i) (d ∷ ds) = (length d ≡ 6) × Filled i ds

Empty-Filled : (ds : Assignment) → Empty ds → Filled 0 ds
Empty-Filled [] e = refl
Empty-Filled (d ∷ ds) e = (ground (arith, ap length e.0), e.1)

all_clusters-Empty : (ds : Assignment) → Empty ds → all_clusters ds ≡ []
all_clusters-Empty [] e = refl
all_clusters-Empty (d ∷ ds) e = rw e.0 (all_clusters-Empty ds e.1)

emptied-Empty : (ds : Assignment) → Empty (emptied ds)
emptied-Empty [] = tt
emptied-Empty (d ∷ ds) = (refl, emptied-Empty ds)

length-emptied : (ds : Assignment) → length (emptied ds) ≡ length ds
length-emptied [] = refl
length-emptied (d ∷ ds) = ap suc (length-emptied ds)

add_to-Filled :
    (c : Cluster) (i : ℕ) (days : Assignment)
    → Filled i days
    → i < length days
    → Filled (if leb 6 (length (get_or (add_to i c days) i [])) then suc i else i) (add_to i c days)
add_to-Filled c i [] h lt = absurd (omega arith)
add_to-Filled c zero (d ∷ ds) h lt = elim (Bool-cases (leb 6 (length (d ++ c ∷ [])))) [
  | inl full ↦ rw full (ground (arith, length-append d (c ∷ [])), Empty-Filled ds h.1)
  | inr room ↦ rw room (ground arith, h.1)
]
add_to-Filled c (suc i) (d ∷ ds) h lt =
    let rest = add_to-Filled c i ds h.1 (omega arith) in
    elim (Bool-cases (leb 6 (length (get_or (add_to i c ds) i [])))) [
      | inl full ↦ rw full (h.0, (rw full at rest))
      | inr room ↦ rw room (h.0, (rw room at rest))
    ]

all_clusters-add_to :
    (c : Cluster) (i : ℕ) (days : Assignment)
    → Filled i days
    → i < length days
    → all_clusters (add_to i c days) ≡ all_clusters days ++ c ∷ []
all_clusters-add_to c i [] h lt = absurd (omega arith)
all_clusters-add_to c zero (d ∷ ds) h lt =
    rw (all_clusters-Empty ds h.1, append-nil (d ++ c ∷ []), append-nil d) refl
all_clusters-add_to c (suc i) (d ∷ ds) h lt =
    ap (λ rest. d ++ rest) (all_clusters-add_to c i ds h.1 (omega arith))
    ∙ sym (append_assoc d (all_clusters ds) (c ∷ []))

length-all_clusters :
    (i : ℕ) (days : Assignment)
    → Filled i days
    → (length (all_clusters days) ≤ 6 * length days)
      × (length days ≤ i → length (all_clusters days) ≡ 6 * length days)
length-all_clusters i [] h = (omega arith, λ _. refl)
length-all_clusters zero (d ∷ ds) h = (
  rw (all_clusters-Empty ds h.1, append-nil) (omega (arith, h.0)),
  λ le. absurd (omega (arith, le)),
)
length-all_clusters (suc i) (d ∷ ds) h =
    let (le, eq) = length-all_clusters i ds h.1 in
    (
      omega (arith, length-append d (all_clusters ds), le, h.0),
      λ over. omega (arith, length-append d (all_clusters ds), eq (omega (arith, over)), h.0),
    )

take_all : {A : Type 0} (n : ℕ) (xs : List A) → length xs ≤ n → take n xs ≡ xs
take_all zero [] h = refl
take_all zero (x ∷ xs) h = absurd (omega arith)
take_all (suc n) [] h = refl
take_all (suc n) (x ∷ xs) h = ap (λ rest. x ∷ rest) (take_all n xs (omega arith))

take-append : {A : Type 0} (n : ℕ) (xs ys : List A) → length xs ≡ n → take n (xs ++ ys) ≡ xs
take-append zero [] ys h = refl
take-append zero (x ∷ xs) ys h = absurd (omega arith)
take-append (suc n) [] ys h = absurd (omega arith)
take-append (suc n) (x ∷ xs) ys h = ap (λ rest. x ∷ rest) (take-append n xs ys (omega arith))

compact_from_lem :
    (cs : List Cluster) (i : ℕ) (days : Assignment)
    → Filled i days
    → all_clusters (compact_from cs (i, days)) ≡ take (6 * length days) (all_clusters days ++ cs)
unfolding compact_from compact_step
compact_from_lem [] i days h =
    rw append-nil
      (sym (take_all (6 * length days) (all_clusters days) (length-all_clusters i days h).0))
compact_from_lem (c ∷ cs) i days h = elim (Bool-cases (ltb i (length days))) [
  | inl current ↦
      (let lt : i < length days = ground arith in
        rw current (
          compact_from_lem cs _ (add_to i c days) (add_to-Filled c i days h lt)
          ∙ rw
              (
                length-update_at i (λ d. d ++ c ∷ []) days,
                all_clusters-add_to c i days h lt,
                append_assoc (all_clusters days) (c ∷ []) cs,
              )
              refl))
  | inr over ↦
      (let full = (length-all_clusters i days h).1 (ground arith) in
        rw over (
          compact_from_lem cs i days h
          ∙ take-append (6 * length days) (all_clusters days) cs full
          ∙ sym (take-append (6 * length days) (all_clusters days) (c ∷ cs) full)))
]

-- The compact packing keeps the clusters of all days in their order, but only the first six for each
-- day of the trip: what comes after these is lost.
pub pack_compact-take :
    (days : Assignment)
    → all_clusters (pack_compact days) ≡ take (6 * length days) (all_clusters days)
unfolding pack_compact
pack_compact-take days =
    compact_from_lem (all_clusters days) 0 (emptied days)
      (Empty-Filled (emptied days) (emptied-Empty days))
    ∙ rw (length-emptied days, all_clusters-Empty (emptied days) (emptied-Empty days)) refl

-- The balanced packing never raises and loses no place: every test on places finds as many of them
-- in its days, which are as many as before, as it found before.
pub pack_balanced_lem :
    (days : Assignment)
    → (out : Assignment) × (pack_balanced days ≡ ok out)
      × (length out ≡ length days)
      × ((p : Place → Bool)
          → count_by p (places_of (all_clusters out)) ≡ count_by p (places_of (all_clusters days)))
unfolding pack_balanced round_robin
pack_balanced_lem [] = ([], refl, refl, λ p. refl)
pack_balanced_lem (d ∷ ds) =
    let days : Assignment = d ∷ ds in
    let (out, e, n, t) = round_robin-IsAdded 0 (all_clusters days) (emptied days) (omega arith) in
    let none_left = all_clusters-Empty (emptied days) (emptied-Empty days) in
    (
      out,
      e,
      n ∙ length-emptied days,
      λ p. omega (arith, t p, ap (λ cs. count_by p (places_of cs)) none_left),
    )

length-compact_from :
    (cs : List Cluster) (i : ℕ) (days : Assignment)
    → length (compact_from cs (i, days)) ≡ length days
unfolding compact_from compact_step
length-compact_from [] i days = refl
length-compact_from (c ∷ cs) i days = elim (Bool-cases (ltb i (length days))) [
  | inl current ↦
      rw current
        (length-compact_from cs _ (add_to i c days) ∙ length-update_at i (λ d. d ++ c ∷ []) days)
  | inr over ↦ rw over (length-compact_from cs i days)
]

-- Every strategy ends without an exception and keeps the number of days.
pub length-pack_activities :
    (days : Assignment) (strategy : String)
    → (out : Assignment) × (pack_activities_by_strategy days strategy ≡ ok out)
      × (length out ≡ length days)
unfolding pack_activities_by_strategy pack_compact pack_cluster_first
length-pack_activities days strategy = elim (Bool-cases (str_eq strategy "compact")) [
  | inl compact ↦
      rw compact
        (_, refl, length-compact_from (all_clusters days) 0 (emptied days) ∙ length-emptied days)
  | inr other ↦ elim (Bool-cases (str_eq strategy "cluster_first")) [
    | inl first ↦ rw (other, first) (days, refl, refl)
    | inr balanced ↦
        rw (other, balanced) (let (out, e, same, kept) = pack_balanced_lem days in (out, e, same))
  ]
]
