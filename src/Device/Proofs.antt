-- ===== src/Device/Proofs.antt =====
-- What holds of the maps of devices.
pub mod Equality
pub mod Update
pub mod Order
