-- ===== src/Dispatch.antt =====
-- Which optimizer answers a request: `optimize_itinerary_hybrid_v31` of utils/hybrid_optimizer_v31.py
-- with the optimizers that it tries, and `should_use_city2graph` of api.py.
pub mod Choice
pub mod Ortools
pub mod Semantic
pub mod Cascade
pub mod Fallback
pub mod Open
