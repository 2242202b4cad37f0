-- ===== src/Idmap/Proofs.antt =====
-- What holds of the idmaps.
pub mod Entry
pub mod Cross
pub mod Parse
pub mod Shift
pub mod Append
pub mod AddSafe
pub mod Pieces
pub mod Remaps
pub mod Ranges
pub mod Defaults
pub mod Isolated
pub mod Lines
pub mod Hostids
