-- ===== src/Benchmark/OpenLoop.antt =====
-- The open-loop phase, `runOpenLoopPhase` and `waitUntil` of internal/benchmark/lifecycle.go, as a
-- machine whose steps interleave the scheduling goroutine, one goroutine for each started request,
-- the collector, the goroutine that closes the result channel, and the parent context.
pub mod Defs
pub mod Step
pub mod Count
pub mod Slots
pub mod Accounts
pub mod Arriving
pub mod Placed
pub mod Invariant
pub mod Reached
pub mod Result
pub mod Accounting
pub mod Progress
pub mod Ordered
pub mod Whole
pub mod Completed
