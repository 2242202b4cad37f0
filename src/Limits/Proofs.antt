-- ===== src/Limits/Proofs.antt =====
-- What holds of the limits.
pub mod Values
pub mod Balance
