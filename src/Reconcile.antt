-- ===== src/Reconcile.antt =====
-- internal/controller/upgradeaccelerator_controller.go: `Reconcile`, by its sections.
pub mod Reply
pub mod Checks
pub mod Scheduling
pub mod Run
pub mod Timely
pub mod Requeue
pub mod Tracked
pub mod Panic
pub mod Stale
pub mod Disabled
pub mod Settled
pub mod Completed
pub mod Mounts
pub mod Names
pub mod Unwait
pub mod Visited
pub mod Shared
pub mod Scoped
pub mod Warrant
pub mod Reachable
pub mod Guard
pub mod Unbatched
pub mod Plan
