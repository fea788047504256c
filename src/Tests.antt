-- ===== src/Tests.antt =====
-- Small inputs, what the program does on them, and the theorems at them.
pub mod Data
mod Designs
mod Runs
mod Intents
pub mod Links
mod Service
mod Branches
mod Metering
mod Compiled
mod Documents
mod Deployments
mod Commands
