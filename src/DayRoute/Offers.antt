-- ===== src/DayRoute/Offers.antt =====
-- The suggestions for free time (utils/hybrid_optimizer_v31.py, `_enrich_suggestions_real` and
-- `_generate_free_blocks_enhanced`).
use Prim.Native.String.{String}
use text.Mathlib.Text.{◌==◌ as str_eq}
use text.Mathlib.TextEquality.{eq_iff}
use goveling_ml.Prelude.{
  ℕ, zero, suc, ◌+◌, ◌-◌, ◌≤◌, ◌<◌, ◌≡◌, ◌⊎◌, refl, inl, inr, true, false, not, ◌||◌, Option, none,
  some, List, [], ◌∷◌, map, ltb, leb, arith, length, take, count_by, All, All-mono, Bool-cases,
  in_either, both,
}
use goveling_ml.Prelude.Exceptions.{Result, ok, err}
use goveling_ml.Schedule.Data.{Location}
use goveling_ml.DayRoute.Data.{RawSuggestion, EnrichedSuggestion, Note, FreeBlock}
use goveling_ml.DayRoute.Free.{
  is_in, deduplicate, enrich_from, enrich_suggestions_real, found, suggest,
  generate_free_blocks_enhanced,
}

abbrev pub ids : List EnrichedSuggestion → List String
ids = map (λ s. s.place_id)

-- No place_id but the empty one comes twice.
abbrev pub NoRepeat : List EnrichedSuggestion → Type 0
NoRepeat [] = Unit
NoRepeat (s ∷ ss) = (str_eq s.place_id "" || not (is_in s.place_id (ids ss)) ≡ true) × NoRepeat ss

-- A place_id that is empty, or not among those seen.
abbrev IsNew : List String → EnrichedSuggestion → Type 0
IsNew seen s = str_eq s.place_id "" || not (is_in s.place_id seen) ≡ true

IsNew-tail :
    (id : String) (seen : List String) (s : EnrichedSuggestion) → IsNew (id ∷ seen) s → IsNew seen s
IsNew-tail id seen s h = ground arith

deduplicate-IsNew :
    (seen : List String) (ss : List EnrichedSuggestion) → All (IsNew seen) (deduplicate seen ss)
deduplicate-IsNew seen [] = tt
deduplicate-IsNew seen (s ∷ ss) = elim (Bool-cases (str_eq s.place_id "")) [
  | inl unnamed ↦ rw unnamed ((rw unnamed refl), deduplicate-IsNew seen ss)
  | inr named ↦ elim (Bool-cases (is_in s.place_id seen)) [
    | inl old ↦ rw (named, old) (deduplicate-IsNew seen ss)
    | inr new ↦
        rw (named, new)
          (
            (rw (named, new) refl),
            All-mono (IsNew-tail s.place_id seen) _ (deduplicate-IsNew (s.place_id ∷ seen) ss),
          )
  ]
]

not_seen :
    (id : String) (seen : List String) (ts : List EnrichedSuggestion)
    → str_eq id "" ≡ false
    → All (IsNew (id ∷ seen)) ts
    → is_in id (ids ts) ≡ false
not_seen id seen [] named h = refl
not_seen id seen (t ∷ ts) named h = ground (
  arith,
  not_seen id seen ts named h.1,
  eq_iff id t.place_id,
  eq_iff t.place_id id,
  eq_iff id "",
  eq_iff t.place_id "",
)

deduplicate-NoRepeat :
    (seen : List String) (ss : List EnrichedSuggestion) → NoRepeat (deduplicate seen ss)
deduplicate-NoRepeat seen [] = tt
deduplicate-NoRepeat seen (s ∷ ss) = elim (Bool-cases (str_eq s.place_id "")) [
  | inl unnamed ↦ rw unnamed ((rw unnamed refl), deduplicate-NoRepeat seen ss)
  | inr named ↦ elim (Bool-cases (is_in s.place_id seen)) [
    | inl old ↦ rw (named, old) (deduplicate-NoRepeat seen ss)
    | inr new ↦
        rw (named, new)
          (
            (rw (named, not_seen s.place_id seen _ named (deduplicate-IsNew (s.place_id ∷ seen) ss))
                refl),
            deduplicate-NoRepeat (s.place_id ∷ seen) ss,
          )
  ]
]

is_in-take :
    (id : String) (n : ℕ) (ss : List EnrichedSuggestion)
    → is_in id (ids ss) ≡ false
    → is_in id (ids (take n ss)) ≡ false
is_in-take id zero ss h = refl
is_in-take id (suc n) [] h = refl
is_in-take id (suc n) (s ∷ ss) h = ground (arith, is_in-take id n ss)

take-NoRepeat : (n : ℕ) (ss : List EnrichedSuggestion) → NoRepeat ss → NoRepeat (take n ss)
take-NoRepeat zero ss h = tt
take-NoRepeat (suc n) [] h = tt
take-NoRepeat (suc n) (s ∷ ss) h =
    (ground (arith, is_in-take s.place_id n ss), take-NoRepeat n ss h.1)

length-take-le : (n : ℕ) (ss : List EnrichedSuggestion) → length (take n ss) ≤ n
length-take-le zero ss = omega arith
length-take-le (suc n) [] = omega arith
length-take-le (suc n) (s ∷ ss) = omega (arith, length-take-le n ss)

-- At most three suggestions, no place_id twice, and a real one among them if there are any.
abbrev pub IsOffer : List EnrichedSuggestion → Type 0
IsOffer ss = (length ss ≤ 3) × NoRepeat ss × ((ss ≡ []) ⊎ (0 < count_by (λ s. not s.synthetic) ss))

-- No block, or a single one that fills the time from the one to the other.
abbrev pub FillsWith : ℕ → ℕ → List FreeBlock → Type 0
FillsWith current_time day_end [] = day_end ≤ current_time
FillsWith current_time day_end (b ∷ bs) =
    (current_time < day_end)
    × (b.start_time ≡ current_time)
    × (b.end_time ≡ day_end)
    × (b.start_time + b.duration_minutes ≡ b.end_time)
    × IsOffer b.suggestions
    × (bs ≡ [])

nothing-IsOffer : IsOffer []
nothing-IsOffer = (omega arith, tt, inl refl)

module _ (search : List String → Location → ℕ → Result (List RawSuggestion))
    (walk_minutes : ℕ → ℕ) where
  found-IsOffer : (r : Result (List RawSuggestion)) → IsOffer (found walk_minutes r).0
  unfolding enrich_suggestions_real
  found-IsOffer (err e) = nothing-IsOffer
  found-IsOffer (ok raw) =
      let offers = deduplicate [] (enrich_from walk_minutes 0 raw) in
      in_either (λ (o : List EnrichedSuggestion × Note). IsOffer o.0)
        (ltb 0 (count_by (λ s. not s.synthetic) (take 3 offers)))
        (λ some_real. (
          length-take-le 3 offers,
          take-NoRepeat 3 offers (deduplicate-NoRepeat [] (enrich_from walk_minutes 0 raw)),
          inr (ground arith),
        ))
        (λ none_real. nothing-IsOffer)

  suggest-IsOffer :
      (duration day_number : ℕ) (location : Option Location)
      → IsOffer (suggest search walk_minutes duration day_number location).0
  suggest-IsOffer duration day_number none = nothing-IsOffer
  suggest-IsOffer duration day_number (some location) =
      both (λ (o : List EnrichedSuggestion × Note). IsOffer o.0) (leb 60 duration) (found-IsOffer _)
        nothing-IsOffer

  -- The free time of a day is one block exactly from the time at hand to the end of the day, or none
  -- if the day is over, whatever the places service answers or raises; it has at most three
  -- suggestions, none of them with the place_id of another, and a real one if it has any.
  pub generate_free_blocks_enhanced-FillsWith :
      (current_time day_end day_number : ℕ) (location : Option Location)
      → FillsWith current_time day_end (
          generate_free_blocks_enhanced search walk_minutes current_time day_end location
            day_number)
  unfolding generate_free_blocks_enhanced
  generate_free_blocks_enhanced-FillsWith current_time day_end day_number location =
      in_either (FillsWith current_time day_end) (ltb current_time day_end)
        (λ early. (
          ground arith,
          refl,
          refl,
          ground arith,
          suggest-IsOffer (day_end - current_time) day_number location,
          refl,
        ))
        (λ over. ground arith)
