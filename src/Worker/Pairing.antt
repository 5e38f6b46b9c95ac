-- ===== src/Worker/Pairing.antt =====
-- apps/worker/src/routes/pairing.ts: a joining device reserves a slot, a device of the space
-- completes it, the joining device polls for the package and deletes the slot.
pub mod Slot
pub mod Join
pub mod Examples
