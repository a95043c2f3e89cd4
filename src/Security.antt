-- ===== src/Security.antt =====
-- Protection of the HTTP entry points.
pub mod RateLimit
