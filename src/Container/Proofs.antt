-- ===== src/Container/Proofs.antt =====
-- What the validation of a container accepts.
pub mod Devices
pub mod Settings
pub mod Names
pub mod Lock
pub mod Raw
pub mod Expand
pub mod Update
