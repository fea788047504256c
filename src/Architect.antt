-- ===== src/Architect.antt =====
-- minifleet/architect.py
pub mod Graph
pub mod Cycles
pub mod Batches
pub mod Repairs
pub mod Review
