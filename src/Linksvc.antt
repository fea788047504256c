-- ===== src/Linksvc.antt =====
-- The link service of examples/linksvc: its store, its rate limit, its analytics and its HTTP surface.
pub mod Store
pub mod Analytics
pub mod Limiter
pub mod Api
