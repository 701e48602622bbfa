-- ===== src/Config.antt =====
-- src/config: the configuration, and what it decides for a request.
pub mod Hosts
pub mod Lexer
pub mod Locations
pub mod Parser
