-- ===== src/Crm.antt =====
-- Computations of the CRM (src/lib).
pub mod Scoring
