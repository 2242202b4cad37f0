-- ===== src/Streams/Proofs.antt =====
-- What the aliases of a server name, in which order its images stand, and what is downloaded.
pub mod Aliases
pub mod Files
pub mod Order
pub mod Served
