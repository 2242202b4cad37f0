-- ===== src/Operation/Proofs.antt =====
-- What holds of operations.
pub mod Methods
pub mod Safety
pub mod Races
pub mod Finish
pub mod Table
