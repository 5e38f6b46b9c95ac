-- ===== src/Client.antt =====
-- packages/client/src: the logic that the clients share.
pub mod Keyring
pub mod Vault
