-- ===== src/Server.antt =====
-- core/src/server.rs: the registry of game servers and the ledger of the matches that run on them.
pub mod Types
pub mod Registration
pub mod Monitor
pub mod Reconciliation
pub mod Ledger
