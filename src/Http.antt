-- ===== src/Http.antt =====
-- src/http: what HTTP/1, HTTP/2 and HTTP/3 share.
mod Examples
pub mod Date
pub mod Uri
