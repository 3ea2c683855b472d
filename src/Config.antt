-- ===== src/Config.antt =====
-- The configuration of a run, internal/config/config.go.
pub mod Text
pub mod Types
pub mod Defaults
pub mod Overriding
pub mod Validate
pub mod Valid
pub mod Plain
pub mod Sections
pub mod Accepted
pub mod Line
pub mod Given
