-- ===== src/DistanceCache.antt =====
-- `ORToolsDistanceCache` of services/ortools_distance_cache.py: distance matrices cached by a hash of
-- their places. Times are milliseconds, distances metres.
pub mod Matrix
pub mod Store
pub mod Bounds
pub mod Freshness
pub mod Order
pub mod Shape
pub mod Symmetry
