-- ===== src/Architect/Cycles.antt =====
-- The search of `find_cycles` ends, reports cycles only, and is silent just on acyclic graphs.
pub mod Keeps
pub mod Sound
pub mod Total
pub mod Acyclic
