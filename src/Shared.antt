-- ===== src/Shared.antt =====
-- packages/shared/src: what the clients and the server agree on.
pub mod Decimal
pub mod Statements
pub mod Vault
pub mod Examples
