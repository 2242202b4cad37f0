-- ===== src/Storage/Proofs.antt =====
-- What holds of the storage.
pub mod Diff
pub mod Defaults
pub mod Updates
pub mod Volumes
pub mod Filling
