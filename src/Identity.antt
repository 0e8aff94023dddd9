-- ===== src/Identity.antt =====
-- Which external identifiers belong to which person: src/core/identity.
pub mod Links
