-- ===== src/Schema/Proofs.antt =====
-- Which updates and patches run on a data base, and what is left of a failure.
pub mod Fresh
pub mod Patches
pub mod Rerun
pub mod Updates
