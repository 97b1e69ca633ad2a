-- ===== src/Tests.antt =====
-- The theorems applied to concrete objects, and runs of the code.
pub mod Objects
pub mod Rules
pub mod Selected
pub mod Parts
pub mod Calls
pub mod Loops
pub mod Planned
pub mod Start
pub mod Reach
pub mod Guard
pub mod Runs
pub mod Copied
