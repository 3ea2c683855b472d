-- ===== src/Client.antt =====
-- The streaming client of internal/openai.
pub mod Sse
pub mod Chunks
