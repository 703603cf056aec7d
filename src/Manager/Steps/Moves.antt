-- ===== src/Manager/Steps/Moves.antt =====
-- What the critical sections of pkg/mirror/manager do to the abstract view of one image.
pub mod Reported
pub mod Passes
pub mod Checked
pub mod Resolved
pub mod Loaded
