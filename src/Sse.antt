-- ===== src/Sse.antt =====
-- internal/sse: the hub between the event bridge and the streams.
pub mod Hub
