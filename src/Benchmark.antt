-- ===== src/Benchmark.antt =====
-- The load generator, internal/benchmark.
pub mod Types
pub mod Outcomes
pub mod Transitions
pub mod Ids
pub mod Arrivals
pub mod Coordinator
pub mod ClosedLoop
pub mod OpenLoop
pub mod Schedule
pub mod Admission
pub mod Observation
pub mod Phases
pub mod Lifecycle
