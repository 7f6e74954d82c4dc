-- ===== src/Storage.antt =====
-- storage/: the ports, the in-memory adapter and the store over a key-value backend.
pub mod Map
pub mod Decimal
pub mod Adapter
pub mod Memory
pub mod Keys
pub mod Kv
pub mod Sql
pub mod Redis
pub mod Upstash
pub mod Resolve
pub mod Contract
pub mod Agreement
pub mod Conformance
