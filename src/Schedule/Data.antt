-- ===== src/Schedule/Data.antt =====
-- The data of the day planner of utils/hybrid_optimizer_v31.py. A place is the dictionary with the
-- keys that the planner reads; a key that `get` may miss is an Option. Coordinates are in
-- millionths of a degree, ratings in tenths, distances in metres and minutes in thousandths.
use Prim.Native.String.{String}
use goveling_ml.Prelude.{ℕ, Bool, ◌&&◌, Option, List}
use goveling_ml.Prelude.Int.{ℤ, eqb_ℤ}

pub record TimeWindow : Type 0 where
  pub start : ℕ
  pub end : ℕ

pub record Location : Type 0 where
  pub lat : ℤ
  pub lon : ℤ

abbrev pub same_location : Location → Location → Bool
same_location a b = eqb_ℤ a.lat b.lat && eqb_ℤ a.lon b.lon

pub record Place : Type 0 where
  pub name : String
  pub location : Location
  pub kind : Option String
  pub place_type : Option String
  pub priority : Option ℕ
  pub rating : Option ℕ
  pub image : Option String
  pub address : Option String
  pub quality_flag : Option String

pub record HomeBase : Type 0 where
  pub name : String
  pub location : Location
  pub rating : Option ℕ
  pub address : Option String

pub record Cluster : Type 0 where
  pub centroid : Location
  pub places : List Place
  pub home_base : Option HomeBase
  pub home_base_source : String

pub record TransferItem : Type 0 where
  pub from_place : String
  pub to_place : String
  pub distance_m : ℕ
  pub duration_minutes : ℕ
  pub recommended_mode : String
  pub is_intercity : Bool
  pub overnight : Bool
  pub is_return_to_hotel : Bool
  pub origin : Location
  pub destination : Location

pub record ActivityItem : Type 0 where
  pub name : String
  pub location : Location
  pub place_type : String
  pub duration_minutes : ℕ
  pub start_time : ℕ
  pub end_time : ℕ
  pub priority : ℕ
  pub rating : ℕ
  pub image : String
  pub address : String
  pub quality_flag : Option String

pub data TimelineItem : Type 0 where
  transfer : TransferItem → TimelineItem
  activity : ActivityItem → TimelineItem

-- What `routing_service_robust` answers.
pub record Eta : Type 0 where
  pub distance_m : ℕ
  pub duration_thousandths : ℕ
