-- ===== src/Metrics.antt =====
-- The metrics of one request, internal/metrics/metrics.go and calculate.go, over the abstract
-- floats. An unavailable metric carries its reason; a reason is never empty, so `err reason` stands
-- for the source's pair of a number and a reason. Differences of two offsets that are not negative
-- need no wrap-around.
pub mod Windows
pub mod Gaps
pub mod Calculate
pub mod Availability
pub mod Decode
