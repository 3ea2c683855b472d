-- ===== src/Workload.antt =====
-- The deterministic prompts of internal/workload.
pub mod Tokenizer
pub mod Sizes
pub mod Builder
pub mod Exact
