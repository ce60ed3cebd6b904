-- ===== src/Streaming.antt =====
-- The streaming path of the gateway (apps/api/app/core/engine and core/detection).
pub mod Sse
pub mod Redaction
pub mod Buffer
pub mod Gateway
