-- ===== src/Tests.antt =====
-- Sample instances of the parameters, and the theorems at concrete inputs.
pub mod Samples
pub mod Entries
pub mod Services
pub mod Deletions
pub mod Owners
pub mod Cycle
pub mod Clusters
pub mod Worlds
pub mod Loops
pub mod Settings
