-- ===== src/Http.antt =====
-- internal/transport/http and the use cases of internal/service behind it.
pub mod Response
pub mod Ingest
pub mod Stream
pub mod History
pub mod Tasks
