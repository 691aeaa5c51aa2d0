-- ===== src/Constraints.antt =====
-- `AdvancedConstraintsEngine` of services/ortools_advanced_constraints.py: the time windows of
-- places and the limits of a trip. Distances are metres; hours of driving and of a visit count in half hours.
pub mod Windows
pub mod Limits
pub mod Keys
pub mod Soundness
use Prim.Native.String.{String}
use goveling_ml.Prelude.{ℕ, Bool, Option, List}
use goveling_ml.Prelude.Int.{ℤ}

-- The keys of a place that are read.
pub record Place : Type 0 where
  pub id : Option String
  pub name : Option String
  pub kind : Option String
  pub category : Option String

pub record Preferences : Type 0 where
  pub daily_start_hour : Option ℕ
  pub daily_end_hour : Option ℕ
  pub transport_mode : Option String
  pub duration_days : Option ℕ
  pub budget : Option String
  pub pace : Option String

-- A time of the day.
pub record Time : Type 0 where
  pub hour : ℕ
  pub minute : ℕ

pub record TimeWindow : Type 0 where
  pub start_time : Time
  pub end_time : Time
  pub day_offset : ℕ
  pub is_required : Bool
