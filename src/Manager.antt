-- ===== src/Manager.antt =====
-- pkg/mirror/manager: the process that keeps one MirrorTarget mirrored. Each method of
-- `MirrorManager` that runs under the mutex is a function from the state to the new state.
pub mod State
pub mod Retry
pub mod Reports
pub mod Handlers
pub mod Workers
pub mod Sweep
pub mod Ownership
pub mod Resync
pub mod Resolve
pub mod Drift
pub mod Dispatch
pub mod Removal
pub mod Phases
pub mod Steps
pub mod Persist
