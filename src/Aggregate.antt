-- ===== src/Aggregate.antt =====
-- Run summaries, internal/aggregate.
pub mod Distribution
pub mod Types
pub mod Slo
pub mod Input
pub mod Selection
pub mod Load
pub mod Tokens
