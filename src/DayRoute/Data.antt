-- ===== src/DayRoute/Data.antt =====
-- The data of a whole day: `route_day_enhanced` of utils/hybrid_optimizer_v31.py and what it calls.
-- Distances are in metres, ratings in tenths.
use Prim.Native.String.{String}
use goveling_ml.Prelude.{ℕ, Bool, Option, List}
use goveling_ml.Schedule.Data.{Location, HomeBase, TransferItem, ActivityItem}

-- `HotelActivity`: the arrival at the hotel of the first day.
pub record CheckIn : Type 0 where
  pub hotel_name : String
  pub location : Location
  pub duration_minutes : ℕ
  pub start_time : ℕ
  pub end_time : ℕ
  pub rating : ℕ
  pub address : String

-- `IntercityActivity`: how a long transfer is spent. Its name and address are made of both ends.
pub record Journey : Type 0 where
  pub from_place : String
  pub to_place : String
  pub place_type : String
  pub duration_minutes : ℕ
  pub start_time : ℕ
  pub end_time : ℕ
  pub description : String
  pub transport_mode : String

-- What `activities_scheduled` holds.
pub data Scheduled : Type 0 where
  check_in : CheckIn → Scheduled
  journey : Journey → Scheduled
  visit : ActivityItem → Scheduled

-- What the timeline of a day holds. A transfer is kept as the item that `_transfer_item_to_dict`
-- formats: a dictionary, without the attributes of a TransferItem.
pub data DayItem : Type 0 where
  scheduled : Scheduled → DayItem
  transfer_dict : TransferItem → DayItem

abbrev pub scheduled_minutes : Scheduled → ℕ
scheduled_minutes (check_in c) = c.duration_minutes
scheduled_minutes (journey j) = j.duration_minutes
scheduled_minutes (visit a) = a.duration_minutes

-- A dictionary of the list `transfers`, of type "intercity_transfer"; `time` is the minute of the day.
pub record Transfer : Type 0 where
  pub from_place : String
  pub to_place : String
  pub origin : Location
  pub destination : Location
  pub distance_m : ℕ
  pub duration_minutes : ℕ
  pub mode : String
  pub time : ℕ
  pub overnight : Bool
  pub is_between_days : Bool

pub record TravelSummary : Type 0 where
  pub total_travel_time_s : ℕ
  pub total_distance_m : ℕ
  pub walking_time_minutes : ℕ
  pub transport_time_minutes : ℕ
  pub intercity_transfers_count : ℕ
  pub intercity_total_minutes : ℕ

pub record BaseInfo : Type 0 where
  pub home_base : HomeBase
  pub auto_recommended : Bool
  pub recommendation_source : String

-- A suggestion as the places service gives it.
pub record RawSuggestion : Type 0 where
  pub name : String
  pub location : Location
  pub kind : String
  pub rating : Option ℕ
  pub distance_m : Option ℕ
  pub synthetic : Option Bool
  pub place_id : Option String
  pub eta_minutes : Option ℕ

pub record EnrichedSuggestion : Type 0 where
  pub name : String
  pub location : Location
  pub kind : String
  pub rating : ℕ
  pub eta_minutes : ℕ
  pub synthetic : Bool
  pub place_id : String

pub data Note : Type 0 where
  no_note real_places none_of_quality unavailable whole_day : Note

pub record FreeBlock : Type 0 where
  pub start_time : ℕ
  pub end_time : ℕ
  pub duration_minutes : ℕ
  pub suggestions : List EnrichedSuggestion
  pub note : Note

-- What a day that has been routed holds beside the keys of every day.
pub record Routed (Advice : Type 0) : Type 0 where
  pub pure_activities : List Scheduled
  pub actionable_recommendations : List Advice
  pub end_location : Option Location

-- The dictionary of a day; `activities` and `timeline` are the same list.
pub record Day (Advice : Type 0) : Type 0 where
  pub timeline : List DayItem
  pub transfers : List Transfer
  pub free_blocks : List FreeBlock
  pub base : Option BaseInfo
  pub travel_summary : TravelSummary
  pub free_minutes : ℕ
  pub routed : Option (Routed Advice)
