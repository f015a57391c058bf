-- ===== src/Controller.antt =====
-- internal/controller: the reconcilers over the SPIRE client.
pub mod Ownership
pub mod Select
pub mod Reliable
pub mod Targeted
pub mod Deletion
pub mod Rounds
pub mod World
