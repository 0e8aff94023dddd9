-- ===== src/Consent.antt =====
-- Consent and the lawful bases it may rest on (src/core/consent).
pub mod LegalBasis
pub mod Service
