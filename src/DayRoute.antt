-- ===== src/DayRoute.antt =====
-- Whole days and their sequence in utils/hybrid_optimizer_v31.py: `route_day_enhanced`, the transfers
-- between clusters and between days, free time, advice and the metrics of a trip.
pub mod Data
pub mod Free
pub mod Transfers
pub mod Advice
pub mod State
pub mod Route
pub mod Between
pub mod Metrics
pub mod Trip
pub mod Tally
pub mod Visits
pub mod Fits
pub mod Totals
pub mod Repeat
pub mod Links
pub mod Overlap
pub mod Offers
