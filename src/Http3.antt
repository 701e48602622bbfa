-- ===== src/Http3.antt =====
-- src/http3: QUIC integers, HTTP/3 frames and settings.
mod Examples
pub mod Varint
pub mod Frame
pub mod Settings
