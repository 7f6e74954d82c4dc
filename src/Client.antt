-- ===== src/Client.antt =====
-- client/: the browser side.
pub mod Vault
pub mod Wallets
pub mod AuthKey
pub mod Flows
