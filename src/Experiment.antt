-- ===== src/Experiment.antt =====
-- Sweeps over configurations, internal/experiment.
pub mod Product
pub mod Axes
pub mod Plan
pub mod Grid
pub mod Planned
pub mod Types
pub mod Run
pub mod Counted
pub mod Stepped
pub mod Swept
pub mod Ended
