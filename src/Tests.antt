-- ===== src/Tests.antt =====
-- Concrete inputs: what the definitions compute, and the theorems at inputs that meet their
-- hypotheses.
mod Breakers
mod Retries
mod Monitors
mod Days
mod Distances
mod Trips
mod Positions
mod Routes
mod Decisions
mod Cities
mod Caches
mod Limits
mod Plans
mod Jobs
