-- ===== src/Log.antt =====
-- The logger: src/log.
pub mod Formatter
