-- ===== src/Http2/Hpack.antt =====
-- src/http2/hpack.rs: header compression.
pub mod Static
pub mod Int
pub mod Table
pub mod Decoder
pub mod Encoder
mod Examples
