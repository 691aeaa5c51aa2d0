-- ===== src/Schedule/Route.antt =====
-- `_route_cluster_with_time_windows` of utils/hybrid_optimizer_v31.py. The routing service is
-- `eta`: its answer to request number n of the day, from one location to another. A transfer is kept
-- as the item that `_transfer_item_to_dict` formats.
use Prim.Native.String.{String}
use text.Mathlib.Text.{◌==◌ as str_eq}
use goveling_ml.Prelude.{
  ℕ, ◌+◌, ◌/◌, Bool, true, false, ◌||◌, not, Option, none, some, List, [], ◌∷◌, ◌++◌, leb,
  if◌then◌else◌, filter_by,
}
use goveling_ml.Schedule.Data.{
  TimeWindow, Location, same_location, Place, HomeBase, Cluster, TransferItem, ActivityItem,
  TimelineItem, transfer, activity, Eta,
}
use goveling_ml.Schedule.Windows.{
  or_default, get_preferred_time_window, find_best_time_slot, estimate_activity_duration,
  sort_places_by_time_preference, decide_mode_by_distance,
}

-- What the loop over the places has made: the activities, the timeline, where it stands, and how
-- many requests it has sent to the routing service.
pub record Leg : Type 0 where
  pub activities : List ActivityItem
  pub timeline : List TimelineItem
  pub location : Location
  pub requests : ℕ

abbrev pub next_request : ℕ → Location → Place → ℕ
next_request request here p = if same_location here p.location then request else request + 1

abbrev pub extend : List TimelineItem → ActivityItem → Leg → Leg
extend moved a rest = record rest {
  activities = a ∷ rest.activities;
  timeline = moved ++ activity a ∷ rest.timeline;
}

abbrev pub is_type : Option String → Bool
is_type none = false
is_type (some t) = str_eq t "accommodation"

abbrev pub is_accommodation : Place → Bool
is_accommodation p = is_type p.place_type || is_type p.kind

abbrev pub first_location : Option HomeBase → Place → Location
first_location none first = first.location
first_location (some hotel) first = hotel.location

module _ (lower : String → String) (eta : ℕ → Location → Location → Eta) (daily : TimeWindow)
    (mode : String) where
  unfoldable pub make_transfer : ℕ → String → String → Bool → Location → Location → TransferItem
  make_transfer request from_place to_place is_return origin destination =
      let answer = eta request origin destination in
      record {
        from_place = from_place;
        to_place = to_place;
        distance_m = answer.distance_m;
        duration_minutes = answer.duration_thousandths / 1000;
        recommended_mode = decide_mode_by_distance answer.distance_m mode;
        is_intercity = false;
        overnight = false;
        is_return_to_hotel = is_return;
        origin = origin;
        destination = destination;
      }

  unfoldable pub make_activity : Place → ℕ → ActivityItem
  make_activity p start = record {
    name = p.name;
    location = p.location;
    place_type = or_default p.kind "point_of_interest";
    duration_minutes = estimate_activity_duration lower p;
    start_time = start;
    end_time = start + estimate_activity_duration lower p;
    priority = or_default p.priority 5;
    rating = or_default p.rating 45;
    image = or_default p.image "";
    address = or_default p.address "";
    quality_flag = p.quality_flag;
  }

  -- The start of the visit: the preferred slot, else the time at hand, or None where the loop breaks.
  unfoldable pub choose_start : Place → ℕ → Option ℕ
  choose_start p current_time =
      let duration = estimate_activity_duration lower p in
      let best =
        find_best_time_slot current_time duration
          (get_preferred_time_window lower (or_default p.kind "") daily) in
      if leb (best + duration) daily.end
      then some best
      else if leb (current_time + duration) daily.end
      then some current_time
      else none

  abbrev pub travel : ℕ → Location → Place → List TimelineItem
  travel request here p =
      if same_location here p.location
      then []
      else transfer (make_transfer request "" p.name false here p.location) ∷ []

  abbrev pub travel_minutes : ℕ → Location → Place → ℕ
  travel_minutes request here p =
      if same_location here p.location
      then 0
      else (eta request here p.location).duration_thousandths / 1000

  -- A place that does not fit ends the loop, after the transfer to it has been entered; the loop
  -- stays where it was before that transfer.
  abbrev pub settle : Place → List TimelineItem → Location → ℕ → (ℕ → Leg) → Option ℕ → Leg
  settle p moved here request next none = record {
    activities = [];
    timeline = moved;
    location = here;
    requests = request;
  }
  settle p moved here request next (some start) = extend moved (make_activity p start) (next start)

  unfoldable pub visit : ℕ → ℕ → Location → List Place → Leg
  visit request time here [] = record {
    activities = [];
    timeline = [];
    location = here;
    requests = request;
  }
  visit request time here (p ∷ ps) =
      settle p (travel request here p) here (next_request request here p)
        (λ start.
          visit (next_request request here p) (start + estimate_activity_duration lower p)
            p.location ps)
        (choose_start p (time + travel_minutes request here p))

  abbrev pub activity_places : List Place → ℕ → List Place
  activity_places places start_time =
      filter_by (λ p. not (is_accommodation p))
        (sort_places_by_time_preference lower places start_time)

  -- No way back is entered for a day without activities.
  abbrev pub return_to : HomeBase → Leg → List ActivityItem → List TimelineItem
  return_to hotel leg [] = []
  return_to hotel leg (a ∷ rest) =
      if same_location leg.location hotel.location
      then []
      else transfer (
          make_transfer leg.requests "última actividad" hotel.name true leg.location hotel.location)
        ∷ []

  abbrev pub finish : Option HomeBase → Leg → List ActivityItem × List TimelineItem
  finish none leg = (leg.activities, leg.timeline)
  finish (some hotel) leg = (leg.activities, leg.timeline ++ return_to hotel leg leg.activities)

  abbrev pub route_places : Option HomeBase → List Place → ℕ → List ActivityItem × List TimelineItem
  route_places home [] start_time = ([], [])
  route_places home (p ∷ ps) start_time =
      finish home (visit 0 start_time (first_location home p) (activity_places (p ∷ ps) start_time))

  unfoldable pub route_cluster_with_time_windows :
      Cluster → ℕ → List ActivityItem × List TimelineItem
  route_cluster_with_time_windows cluster start_time =
      route_places cluster.home_base cluster.places start_time
