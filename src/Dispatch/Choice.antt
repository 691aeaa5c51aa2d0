-- ===== src/Dispatch/Choice.antt =====
-- `should_use_city2graph` of api.py with the settings that settings.py gives by default. Scores are
-- in parts of 150000, distances in metres. A place is one of an ItineraryRequest; the names of the
-- cities (clusters by DBSCAN, or a geocoder) and `str.lower` are parameters.
use Prim.Native.String.{String}
use goveling_ml.Prelude.{
  ℕ, ◌+◌, ◌*◌, Bool, true, false, ◌&&◌, not, Option, none, some, List, [], ◌∷◌, ◌++◌, map, min, max,
  ltb, leb, if◌then◌else◌, length, filter_by,
}
use goveling_ml.Schedule.Data.{Location}
use goveling_ml.Decision.Complexity.{member, distinct}

pub record PlaceRequest : Type 0 where
  pub kind : Option String
  pub location : Location

-- The place types that profit from the analysis.
abbrev pub rich_types : List String
rich_types =
    "museum" ∷ "tourist_attraction" ∷ "park" ∷ "art_gallery" ∷ "church" ∷ "synagogue" ∷ "mosque"
    ∷ "cemetery" ∷ "natural_feature" ∷ "university" ∷ "library" ∷ "town_hall" ∷ "courthouse"
    ∷ "locality" ∷ "neighborhood" ∷ "sublocality" ∷ "administrative_area" ∷ "cultural_center"
    ∷ "historical_site" ∷ "monument" ∷ []

-- `str(None)` for a place without a type.
abbrev pub type_text : Option String → String
type_text none = "None"
type_text (some kind) = kind

abbrev pub largest : List ℕ → ℕ
largest [] = 0
largest (d ∷ ds) = max d (largest ds)

module _ (lower : String → String) (distance : Location → Location → ℕ) where
  unfoldable pub count_semantic_place_types : List PlaceRequest → List String
  count_semantic_place_types places =
      distinct (filter_by (λ t. member t rich_types) (map (λ p. lower (type_text p.kind)) places))

  abbrev pub pair_distances : List PlaceRequest → List ℕ
  pair_distances [] = []
  pair_distances (p ∷ ps) = map (λ q. distance p.location q.location) ps ++ pair_distances ps

  unfoldable pub geographic_spread : List PlaceRequest → ℕ
  geographic_spread places = largest (pair_distances places)

-- The settings; a list of cities that is empty enables all.
pub record CitySettings : Type 0 where
  pub enable_city2graph : Bool
  pub enabled_cities : List String

pub record CityChoice : Type 0 where
  pub use_city2graph : Bool
  pub complexity_score : ℕ

-- Eight places, three days, several cities, three types and 50 km are what the factors compare with.
abbrev pub total_score : ℕ → ℕ → ℕ → ℕ → ℕ → ℕ
total_score places days cities types spread_m =
    min (56250 * places) 900000
    + min (150000 * days) 900000
    + (if ltb 1 cities then 300000 else 0)
    + min (50000 * types) 150000
    + min (3 * spread_m) 150000

abbrev pub in_enabled : (String → String) → List String → List String → Bool
in_enabled lower [] cities = true
in_enabled lower (e ∷ es) cities =
    ltb 0 (length (filter_by (λ c. member (lower c) (e ∷ es)) cities))

unfoldable pub should_use_city2graph :
    (String → String)
    → (Location → Location → ℕ)
    → CitySettings
    → List String
    → ℕ
    → List PlaceRequest
    → CityChoice
unfolding count_semantic_place_types geographic_spread
should_use_city2graph lower distance s cities_detected trip_days places =
    let score =
      total_score (length places) trip_days (length cities_detected)
        (length (count_semantic_place_types lower distance places))
        (geographic_spread lower distance places) in
    if not s.enable_city2graph
    then record { use_city2graph = false; complexity_score = 0 }
    else record {
      use_city2graph = leb 750000 score && in_enabled lower s.enabled_cities cities_detected;
      complexity_score = score;
    }
