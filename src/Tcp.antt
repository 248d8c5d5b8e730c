-- ===== src/Tcp.antt =====
-- The transport layer: src/tcpserver.
pub mod ByteBuffer
pub mod ByteData
pub mod Connection
pub mod EventLoop
pub mod Timer
pub mod TimerWheel
pub mod Server
pub mod Poller
pub mod Event
