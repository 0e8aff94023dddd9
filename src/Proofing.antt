-- ===== src/Proofing.antt =====
-- Proof of residence (src/core/proofing).
pub mod Residence
