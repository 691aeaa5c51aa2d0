-- ===== src/DayRoute/Transfers.antt =====
-- Transfers between clusters in utils/hybrid_optimizer_v31.py: `_build_enhanced_transfer` with the
-- names of its ends, and `_create_intercity_activity`. The known hotels are the table of the hotel
-- recommender; the places service, texts made of coordinates and the search in a text are parameters.
use Prim.Native.String.{String}
use text.Mathlib.Text.{◌==◌ as str_eq}
use goveling_ml.Prelude.{
  ℕ, ◌+◌, ◌*◌, ◌/◌, Bool, false, ◌&&◌, ◌||◌, Option, none, some, List, [], ◌∷◌, ltb, leb,
  if◌then◌else◌,
}
use goveling_ml.Prelude.Exceptions.{Result, ok, err}
use goveling_ml.Prelude.Int.{ℤ, abs, ◌-ℤ◌}
use goveling_ml.Schedule.Data.{Location, HomeBase, Cluster, TransferItem}
use goveling_ml.Schedule.Windows.{or_default, decide_mode_by_distance}
use goveling_ml.RouteCache.{RouteInfo, RouteCache, Services, routing_service_cached}
use goveling_ml.DayRoute.Data.{Journey}

pub record KnownHotel : Type 0 where
  pub name : String
  pub location : Location

-- Squares of distances in millionths of a degree; 0.01 degrees are 10000.
abbrev pub square_distance : Location → Location → ℕ
square_distance a b =
    abs (a.lat -ℤ b.lat) * abs (a.lat -ℤ b.lat) + abs (a.lon -ℤ b.lon) * abs (a.lon -ℤ b.lon)

-- The first hotel nearer than that, or the empty text.
abbrev pub get_known_hotel_name : List KnownHotel → Location → String
get_known_hotel_name [] location = ""
get_known_hotel_name (h ∷ hs) location =
    let rest = get_known_hotel_name hs location in
    if ltb (square_distance location h.location) 100000000 then h.name else rest

-- What the code asks of its environment while it names a place: the nearest named place, a hotel
-- within 500 m, and the texts that stand for coordinates.
pub record Naming : Type 0 where
  pub hotels : List KnownHotel
  pub nearest_place : Location → Result (List (Option String))
  pub nearby_hotel : Location → Result (List (Option String))
  pub lat_lon : Location → String
  pub ubicacion : Location → String
  pub starts_with_lat : String → Bool
  pub is_point_of_interest : String → Bool

abbrev pub first_name : Result (List (Option String)) → String → String
first_name (ok []) d = d
first_name (ok (name ∷ names)) d = or_default name d
first_name (err e) d = d

unfoldable pub get_nearest_named_place : Naming → Location → String
get_nearest_named_place n location = first_name (n.nearest_place location) (n.lat_lon location)

-- A hotel nearby that has no name leaves the name as it is; none, or an error, gives coordinates.
abbrev pub hotel_or_location : Naming → Location → String → Result (List (Option String)) → String
hotel_or_location n origin name (ok []) = n.ubicacion origin
hotel_or_location n origin name (ok (h ∷ hs)) = or_default h name
hotel_or_location n origin name (err e) = n.ubicacion origin

abbrev pub improve : Naming → Location → String → String
improve n origin name =
    if n.starts_with_lat name || (n.is_point_of_interest name || str_eq name "")
    then hotel_or_location n origin name (n.nearby_hotel origin)
    else name

abbrev pub name_of_origin : Naming → Location → String
name_of_origin n origin =
    let hotel = get_known_hotel_name n.hotels origin in
    if str_eq hotel "" then improve n origin (get_nearest_named_place n origin) else hotel

abbrev pub name_of_destination : Naming → Location → Option HomeBase → String
name_of_destination n destination (some base) = base.name
name_of_destination n destination none =
    let hotel = get_known_hotel_name n.hotels destination in
    if str_eq hotel "" then get_nearest_named_place n destination else hotel

abbrev pub is_walk : String → Bool
is_walk mode = str_eq mode "walk" || str_eq mode "walking"

-- What the services answer to a transfer: the cached routing service to the request, and the robust
-- service when the route is asked again by car.
pub record Replies : Type 0 where
  pub services : Services
  pub driven : RouteInfo

module _ (round_3 : ℤ → ℤ) (n : Naming) (mode : String) where
  -- Over 30 km a walk is asked again as a drive.
  abbrev pub asked_again : RouteInfo → RouteInfo → RouteInfo
  asked_again driven r = if ltb 30000 r.distance_m && is_walk mode then driven else r

  abbrev pub transfer_of : Location → Location → Cluster → RouteInfo → TransferItem
  transfer_of origin destination target r =
      let final_mode = decide_mode_by_distance r.distance_m mode in
      record {
        from_place = name_of_origin n origin;
        to_place = name_of_destination n destination target.home_base;
        distance_m = r.distance_m;
        duration_minutes = r.duration / 1000;
        recommended_mode =
            if ltb 30000 r.distance_m && is_walk final_mode then "drive" else final_mode;
        is_intercity = ltb 30000 r.distance_m;
        overnight = false;
        is_return_to_hotel = false;
        origin = origin;
        destination = destination;
      }

  unfoldable pub build_enhanced_transfer :
      Replies → Location → Location → Cluster → RouteCache → TransferItem × RouteCache
  build_enhanced_transfer replies origin destination target cache =
      let (r, later) =
        routing_service_cached round_3 replies.services origin destination mode cache in
      (transfer_of origin destination target (asked_again replies.driven r), later)

-- What is done on a journey of so many minutes.
abbrev pub journey_type_of : ℕ → String
journey_type_of minutes =
    if leb 480 minutes
    then "overnight_journey"
    else if leb 360 minutes
    then "scenic_journey"
    else "comfortable_journey"

abbrev pub description_of : ℕ → String
description_of minutes =
    if leb 480 minutes
    then "Viaje nocturno - considera descanso"
    else if leb 360 minutes
    then "Viaje panorámico - disfruta el paisaje"
    else "Tiempo para relajarse o trabajar"

-- Under three hours there is none.
unfoldable pub create_intercity_activity : TransferItem → ℕ → Option Journey
create_intercity_activity x current_time =
    if ltb x.duration_minutes 180
    then none
    else some (record {
      from_place = x.from_place;
      to_place = x.to_place;
      place_type = journey_type_of x.duration_minutes;
      duration_minutes = x.duration_minutes;
      start_time = current_time;
      end_time = current_time + x.duration_minutes;
      description = description_of x.duration_minutes;
      transport_mode = x.recommended_mode;
    })
