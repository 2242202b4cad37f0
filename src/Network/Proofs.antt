-- ===== src/Network/Proofs.antt =====
-- What holds of the networks.
pub mod Settings
pub mod Addresses
