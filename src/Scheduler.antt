-- ===== src/Scheduler.antt =====
-- minifleet/scheduler.py and the two helpers that it takes from elsewhere.
pub mod Scope
pub mod Ownership
pub mod State
pub mod Wave
pub mod Submit
pub mod Repair
pub mod Integrate
pub mod Steps
pub mod Promises
pub mod Verified
