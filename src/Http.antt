-- ===== src/Http.antt =====
-- The HTTP layer: src/httpserver.
pub mod Query
pub mod WebSocket
pub mod Reply
pub mod Request
pub mod Session
