-- ===== src/Days.antt =====
-- The distribution of clusters over the days of a trip in utils/hybrid_optimizer_v31.py. The
-- dictionary of the days is the list of its values in order, as its keys are the trip's dates.
pub mod Assign
pub mod Pack
pub mod Conservation
pub mod Packing
pub mod Allocation
