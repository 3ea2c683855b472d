-- ===== src/Benchmark/ClosedLoop.antt =====
-- `runClosedLoopPhase` of internal/benchmark/lifecycle.go as a machine: the workers, the channels,
-- the contexts and the select loop of the coordinating goroutine. A schedule is a list of actions,
-- each one atomic step of a goroutine or of the environment; an action that is not enabled changes
-- nothing. The runner's answer, the clock's readings and the cancellations are in the actions.
--
-- `active.Add(1)` and `updateMaximum` are one step: the maximum is read only after every worker
-- has ended.
pub mod Defs
pub mod Step
pub mod Count
pub mod Occupancy
pub mod Invariant
pub mod Ending
pub mod Delivery
pub mod Result
pub mod Completed
