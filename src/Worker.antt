-- ===== src/Worker.antt =====
-- The Worker, apps/worker/src: its tables, and one module for each group of handlers.
pub mod Tables
pub mod Sample
pub mod Examples
pub mod Auth
pub mod Action
pub mod Db
pub mod Blobs
pub mod Messages
pub mod Keys
pub mod Devices
pub mod Space
pub mod Attestation
pub mod Pairing
pub mod Vault
pub mod Uploads
pub mod Spaces
