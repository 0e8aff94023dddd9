-- ===== src/Residency.antt =====
-- The residency relationship and the register that keeps it (src/core/residency).
pub mod Lifecycle
pub mod Store
pub mod Register
pub mod DecisionMode
pub mod Refusal
