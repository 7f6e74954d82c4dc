-- ===== src/Core.antt =====
-- core/: what every layer shares (types, configuration, crypto helpers, signed messages).
pub mod Platform
pub mod Js
pub mod Crypto
pub mod Offchain
pub mod Types
pub mod Config
pub mod Messages
