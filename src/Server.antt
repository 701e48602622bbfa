-- ===== src/Server.antt =====
-- src/server: the parts of the server around the protocols.
mod Examples
pub mod Body
pub mod Etag
pub mod FcgiProto
pub mod LimitConn
pub mod LimitReq
pub mod Range
pub mod Upstream
