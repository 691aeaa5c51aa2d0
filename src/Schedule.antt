-- ===== src/Schedule.antt =====
-- The day planner of utils/hybrid_optimizer_v31.py. Times are minutes from midnight.
pub mod Data
pub mod Windows
pub mod Route
pub mod Slots
pub mod Timeline
pub mod Prefix
