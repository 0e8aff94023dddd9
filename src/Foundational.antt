-- ===== src/Foundational.antt =====
-- src/core/foundational: the calls of the gateways of national registers.
pub mod Retry
