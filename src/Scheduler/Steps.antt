-- ===== src/Scheduler/Steps.antt =====
-- The operations of the scheduler as steps, in any order, and what they keep of its tasks.
pub mod Tasks
pub mod Waves
pub mod Repairs
pub mod Merges
pub mod Submits
pub mod Calls
pub mod Whole
