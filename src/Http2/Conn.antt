-- ===== src/Http2/Conn.antt =====
-- src/http2/conn.rs: the reader's side of a connection, one frame at a time.
pub mod Streams
pub mod Handlers
pub mod Control
pub mod Receive
pub mod Invariant
pub mod Fields
pub mod Pump
pub mod Reach
