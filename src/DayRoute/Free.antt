-- ===== src/DayRoute/Free.antt =====
-- Free time and its suggestions in utils/hybrid_optimizer_v31.py: `_generate_free_blocks_enhanced`,
-- `_select_types_by_duration_and_day` and `_enrich_suggestions_real`. `search` is
-- `search_nearby_real` of the places service, `walk_minutes` the whole minutes that
-- `routing_service_robust` gives for walking to the n-th suggestion.
use Prim.Native.String.{String}
use text.Mathlib.Text.{◌==◌ as str_eq}
use goveling_ml.Prelude.{
  ℕ, ◌+◌, ◌-◌, ◌%◌, Bool, true, false, not, ◌||◌, Option, none, some, List, [], ◌∷◌, ltb, leb,
  if◌then◌else◌, take, get_or, count_by,
}
use goveling_ml.Prelude.Exceptions.{Result, ok, err}
use goveling_ml.Schedule.Data.{Location}
use goveling_ml.Schedule.Windows.{or_default}
use goveling_ml.DayRoute.Data.{
  RawSuggestion, EnrichedSuggestion, Note, no_note, real_places, none_of_quality, unavailable,
  FreeBlock,
}

abbrev pub variety_types : List String
variety_types = "cafe" ∷ "restaurant" ∷ "museum" ∷ "park" ∷ "point_of_interest" ∷ "art_gallery" ∷ []

-- Days count from 1.
unfoldable pub select_types_by_duration_and_day : ℕ → ℕ → List String
select_types_by_duration_and_day duration_minutes day_number =
    let day_index = (day_number - 1) % 6 in
    let secondary = get_or variety_types day_index "" in
    let tertiary = get_or variety_types ((day_index + 1) % 6) "" in
    let base = "tourist_attraction" ∷ secondary ∷ tertiary ∷ [] in
    if leb 480 duration_minutes
    then base
    else if leb 240 duration_minutes
    then take 2 base
    else "tourist_attraction" ∷ "cafe" ∷ []

module _ (walk_minutes : ℕ → ℕ) where
  -- A suggestion that is not marked as real is synthetic: it has no place_id, and its time is asked.
  abbrev pub enriched : ℕ → RawSuggestion → EnrichedSuggestion
  enriched n s =
      if not (or_default s.synthetic true)
      then record {
        name = s.name;
        location = s.location;
        kind = s.kind;
        rating = or_default s.rating 40;
        eta_minutes = or_default s.eta_minutes 0;
        synthetic = false;
        place_id = or_default s.place_id "";
      }
      else record {
        name = s.name;
        location = s.location;
        kind = s.kind;
        rating = or_default s.rating 40;
        eta_minutes = walk_minutes n;
        synthetic = true;
        place_id = "";
      }

  -- Suggestions farther than 5 km are left out.
  abbrev pub enrich_from : ℕ → List RawSuggestion → List EnrichedSuggestion
  enrich_from n [] = []
  enrich_from n (s ∷ ss) =
      let rest = enrich_from (n + 1) ss in
      if ltb 5000 (or_default s.distance_m 0) then rest else enriched n s ∷ rest

abbrev pub is_in : String → List String → Bool
is_in x [] = false
is_in x (y ∷ ys) = str_eq x y || is_in x ys

-- A place_id that is not empty is kept once.
abbrev pub deduplicate : List String → List EnrichedSuggestion → List EnrichedSuggestion
deduplicate seen [] = []
deduplicate seen (s ∷ ss) =
    let rest = deduplicate seen ss in
    let rest_seen = deduplicate (s.place_id ∷ seen) ss in
    if str_eq s.place_id "" then s ∷ rest else if is_in s.place_id seen then rest else s ∷ rest_seen

unfoldable pub enrich_suggestions_real : (ℕ → ℕ) → List RawSuggestion → List EnrichedSuggestion
enrich_suggestions_real walk_minutes raw = take 3 (deduplicate [] (enrich_from walk_minutes 0 raw))

abbrev pub block : ℕ → ℕ → List EnrichedSuggestion → Note → FreeBlock
block current_time day_end suggestions note = record {
  start_time = current_time;
  end_time = day_end;
  duration_minutes = day_end - current_time;
  suggestions = suggestions;
  note = note;
}

-- Suggestions of which none is real are dropped.
abbrev pub annotate : List EnrichedSuggestion → List EnrichedSuggestion × Note
annotate suggestions =
    if ltb 0 (count_by (λ s. not s.synthetic) suggestions)
    then (suggestions, real_places)
    else ([], none_of_quality)

abbrev pub found : (ℕ → ℕ) → Result (List RawSuggestion) → List EnrichedSuggestion × Note
found walk_minutes (ok raw) = annotate (enrich_suggestions_real walk_minutes raw)
found walk_minutes (err e) = ([], unavailable)

module _ (search : List String → Location → ℕ → Result (List RawSuggestion))
    (walk_minutes : ℕ → ℕ) where
  abbrev pub suggest : ℕ → ℕ → Option Location → List EnrichedSuggestion × Note
  suggest duration day_number none = ([], no_note)
  suggest duration day_number (some location) =
      if leb 60 duration
      then found walk_minutes
          (search (select_types_by_duration_and_day duration day_number) location day_number)
      else ([], no_note)

  unfoldable pub generate_free_blocks_enhanced : ℕ → ℕ → Option Location → ℕ → List FreeBlock
  generate_free_blocks_enhanced current_time day_end location day_number =
      if ltb current_time day_end
      then (let (suggestions, note) = suggest (day_end - current_time) day_number location in
          block current_time day_end suggestions note ∷ [])
      else []
