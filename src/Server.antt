-- ===== src/Server.antt =====
-- server/: the request handlers and what they are made of.
pub mod Http
pub mod Signature
pub mod Sessions
pub mod Validate
pub mod Routes
pub mod Next
