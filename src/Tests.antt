-- ===== src/Tests.antt =====
-- Concrete deployments, and the theorems at concrete inputs.
mod Setup
mod Core
mod Storage
mod Server
mod Handlers
mod Sql
mod Conformance
mod Wallets
mod Queue
mod Ledger
mod AuthKey
mod Flows
mod Client
