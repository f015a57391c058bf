-- ===== src/SpireEntry.antt =====
-- internal/spireentry: rendering entries, their keys, and the state that is reconciled.
pub mod Compare
pub mod Key
pub mod State
pub mod Render
pub mod Helpers
pub mod ByObject
