-- ===== src/Coroutine.antt =====
-- The variant of the server with coroutines: src/co_tcpserver.
pub mod Loop
