-- ===== src/DayRoute/State.antt =====
-- The state of `route_day_enhanced` of utils/hybrid_optimizer_v31.py while it goes through the clusters
-- of a day, and what its steps do to it. `distance` is `haversine_km` in metres.
use Prim.Native.String.{String}
use text.Mathlib.Text.{◌==◌ as str_eq}
use goveling_ml.Prelude.{
  ℕ, ◌+◌, Bool, false, Option, none, some, List, [], ◌∷◌, ◌++◌, map, ◌==◌, if◌then◌else◌,
}
use goveling_ml.Prelude.Exceptions.{Result}
use goveling_ml.Prelude.Int.{ℤ, pos}
use goveling_ml.Schedule.Data.{
  Location, Place, HomeBase, Cluster, TransferItem, ActivityItem, TimelineItem, transfer, activity,
  Eta,
}
use goveling_ml.Schedule.Windows.{or_default}
use goveling_ml.RouteCache.{RouteCache}
use goveling_ml.DayRoute.Data.{
  CheckIn, Journey, Scheduled, check_in, journey, visit, DayItem, scheduled, transfer_dict,
  Transfer, RawSuggestion,
}
use goveling_ml.DayRoute.Transfers.{Naming, Replies, create_intercity_activity}

-- What the services answer in the course of one day: to the transfer to cluster number k, to the
-- n-th request in the routing of that cluster, to the search for suggestions.
pub record DayServices : Type 0 where
  pub replies : ℕ → Replies
  pub eta : ℕ → ℕ → Location → Location → Eta
  pub search : List String → Location → ℕ → Result (List RawSuggestion)
  pub walk_minutes : ℕ → ℕ

-- What does not change from day to day.
pub record Planner : Type 0 where
  pub distance : Location → Location → ℕ
  pub round_3 : ℤ → ℤ
  pub lower : String → String
  pub mentions_restaurant : String → Bool
  pub naming : Naming
  pub transport_mode : String
  pub no_original_accommodations : Bool

-- `left_over` is the transfer at which the loop over the clusters has ended, if it has.
pub record DayState : Type 0 where
  pub timeline : List DayItem
  pub transfers : List Transfer
  pub activities_scheduled : List Scheduled
  pub current_time : ℕ
  pub current_location : Option Location
  pub walking_time : ℕ
  pub transport_time : ℕ
  pub intercity_transfers_count : ℕ
  pub intercity_total_minutes : ℕ
  pub total_distance : ℕ
  pub left_over : Option TransferItem
  pub cache : RouteCache

abbrev pub first_place : List Place → Option Location
first_place [] = none
first_place (p ∷ ps) = some p.location

abbrev pub base_or_place : Option HomeBase → List Place → Option Location
base_or_place none ps = first_place ps
base_or_place (some base) ps = some base.location

-- Where a day begins whose predecessor has ended nowhere.
abbrev pub start_location : Option Location → List Cluster → Option Location
start_location (some here) clusters = some here
start_location none [] = none
start_location none (c ∷ cs) = base_or_place c.home_base c.places

abbrev pub arrival : Option HomeBase → Location → ℕ → CheckIn
arrival none here time = record {
  hotel_name = "hotel";
  location = here;
  duration_minutes = 30;
  start_time = time;
  end_time = time + 30;
  rating = 45;
  address = "Hotel base del viaje";
}
arrival (some base) here time = record {
  hotel_name = base.name;
  location = here;
  duration_minutes = 30;
  start_time = time;
  end_time = time + 30;
  rating = or_default base.rating 45;
  address = or_default base.address "Hotel base del viaje";
}

abbrev pub begin : ℕ → Option Location → RouteCache → DayState
begin time here cache = record {
  timeline = [];
  transfers = [];
  activities_scheduled = [];
  current_time = time;
  current_location = here;
  walking_time = 0;
  transport_time = 0;
  intercity_transfers_count = 0;
  intercity_total_minutes = 0;
  total_distance = 0;
  left_over = none;
  cache = cache;
}

abbrev pub schedule : Scheduled → DayState → DayState
schedule a s = record s {
  timeline = s.timeline ++ scheduled a ∷ [];
  activities_scheduled = s.activities_scheduled ++ a ∷ [];
}

-- The first day begins with a check-in of half an hour.
abbrev pub check_in_at : List Cluster → Option Location → DayState → DayState
check_in_at (c ∷ cs) (some here) s =
    let c_in = check_in (arrival c.home_base here s.current_time) in
    record (schedule c_in s) { current_time = s.current_time + 30 }
check_in_at [] here s = s
check_in_at (c ∷ cs) none s = s

unfoldable pub begin_day : ℕ → ℕ → List Cluster → Option Location → RouteCache → DayState
begin_day day_number time clusters here cache =
    if day_number == 1
    then check_in_at clusters here (begin time here cache)
    else begin time here cache

abbrev pub intercity_transfer : TransferItem → ℕ → Transfer
intercity_transfer x time = record {
  from_place = x.from_place;
  to_place = x.to_place;
  origin = x.origin;
  destination = x.destination;
  distance_m = x.distance_m;
  duration_minutes = x.duration_minutes;
  mode = x.recommended_mode;
  time = time;
  overnight = x.overnight;
  is_between_days = false;
}

abbrev pub with_journey : Option Journey → DayState → DayState
with_journey none s = s
with_journey (some j) s = schedule (journey j) s

-- A transfer goes to the timeline, then what is done on the way, then to the list of transfers.
unfoldable pub take_transfer : TransferItem → DayState → DayState
unfolding create_intercity_activity
take_transfer x s =
    let entered = record s { timeline = s.timeline ++ transfer_dict x ∷ [] } in
    let t = with_journey (create_intercity_activity x s.current_time) entered in
    record t {
      transfers = s.transfers ++ intercity_transfer x s.current_time ∷ [];
      intercity_transfers_count = s.intercity_transfers_count + 1;
      intercity_total_minutes = s.intercity_total_minutes + x.duration_minutes;
      transport_time = s.transport_time + x.duration_minutes;
      total_distance = s.total_distance + x.distance_m;
      current_time = s.current_time + x.duration_minutes;
    }

abbrev pub day_items : List TimelineItem → List DayItem
day_items [] = []
day_items (transfer x ∷ xs) = transfer_dict x ∷ day_items xs
day_items (activity a ∷ xs) = scheduled (visit a) ∷ day_items xs

abbrev pub last_item : List DayItem → Option DayItem
last_item [] = none
last_item (x ∷ []) = some x
last_item (x ∷ y ∷ xs) = last_item (y ∷ xs)

-- The coordinates that a journey is given.
abbrev pub nowhere : Location
nowhere = record { lat = pos 0; lon = pos 0 }

-- Time and location are read from the attributes of the last item; a dictionary has none.
abbrev pub move_on : Option DayItem → DayState → DayState
move_on none s = s
move_on (some (transfer_dict x)) s = s
move_on (some (scheduled (visit a))) s = record s {
  current_time = a.end_time;
  current_location = some a.location;
}
move_on (some (scheduled (check_in c))) s = record s {
  current_time = c.end_time;
  current_location = some c.location;
}
move_on (some (scheduled (journey j))) s = record s {
  current_time = j.end_time;
  current_location = some nowhere;
}

-- `isinstance(item, TransferItem)`: the timeline holds transfers as dictionaries.
abbrev pub as_transfer_item : DayItem → Option TransferItem
as_transfer_item (scheduled a) = none
as_transfer_item (transfer_dict x) = none

abbrev pub count_leg : Option TransferItem → DayState → DayState
count_leg none s = s
count_leg (some x) s =
    let farther = record s { total_distance = s.total_distance + x.distance_m } in
    if str_eq x.recommended_mode "walk"
    then record farther { walking_time = s.walking_time + x.duration_minutes }
    else record farther { transport_time = s.transport_time + x.duration_minutes }

abbrev pub count_legs : List DayItem → DayState → DayState
count_legs [] s = s
count_legs (x ∷ xs) s = count_legs xs (count_leg (as_transfer_item x) s)

unfoldable pub add_cluster : List ActivityItem × List TimelineItem → DayState → DayState
add_cluster (activities, items) s =
    let t = record s {
      activities_scheduled = s.activities_scheduled ++ map visit activities;
      timeline = s.timeline ++ day_items items;
    } in
    count_legs (day_items items) (move_on (last_item (day_items items)) t)
