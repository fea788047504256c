-- ===== src/Gates.antt =====
-- minifleet/gates.py: gates, the metrics that they publish, and the verdict.
pub mod Output
pub mod Runner
pub mod Verdicts
pub mod Kept
