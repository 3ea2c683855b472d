-- ===== src/Executor.antt =====
-- One benchmark run from its configuration to its status, internal/benchmarkexec/executor.go.
pub mod Static
pub mod Classify
pub mod Completed
