-- ===== src/Trust/Proofs.antt =====
-- Who is trusted, and who stays so.
pub mod Outsiders
pub mod Parsed
pub mod Revoked
pub mod Steps
pub mod Table
