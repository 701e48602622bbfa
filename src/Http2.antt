-- ===== src/Http2.antt =====
-- src/http2: framing, header compression, and the connection.
mod Examples
pub mod Frame
pub mod Huffman
pub mod Hpack
pub mod Conn
