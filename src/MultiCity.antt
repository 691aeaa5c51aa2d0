-- ===== src/MultiCity.antt =====
-- The planning of trips through several cities: services/multi_city_optimizer.py, its simple version
-- services/multi_city_optimizer_simple.py, and services/intercity_service.py.
pub mod Sequence
pub mod Tour
pub mod Shares
pub mod Totals
pub mod Plan
pub mod Slices
pub mod Calendar
pub mod Names
pub mod Trip
pub mod Strategy
pub mod Full
pub mod Failure
pub mod Countries
pub mod Groups
pub mod Itinerary
pub mod Complete
use Prim.Native.String.{String}
use goveling_ml.Prelude.{List, Option}
use goveling_ml.Prelude.Int.{ℤ}

-- The keys of a point of interest that are read.
pub record Poi : Type 0 where
  pub name : String
  pub city : Option String
  pub country : Option String

-- Coordinates are in millionths of a degree.
pub record City : Type 0 where
  pub name : String
  pub center_lat : ℤ
  pub center_lon : ℤ
  pub country : String
  pub pois : List Poi
