-- ===== src/Proofing/Residence.antt =====
-- src/core/proofing/residence.ts and address.ts: how residence evidence is graded and judged.
pub mod Types
pub mod Evaluate
pub mod Strongest
pub mod Excluded
pub mod Judged
mod Tests
