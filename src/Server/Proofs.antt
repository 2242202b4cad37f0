-- ===== src/Server/Proofs.antt =====
-- What holds of the daemon's configuration.
pub mod Values
pub mod Types
pub mod Updates
pub mod Collect
