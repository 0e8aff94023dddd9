-- ===== src/Consent/Service.antt =====
-- src/core/consent/consent.ts: granting, reading, expiring and withdrawing consent over the in-memory
-- store. Instants are milliseconds from the earliest date of the language; `new Date()` is `now`,
-- random identifiers are arguments, and the signature of a receipt is the parameter `sign`.
pub mod Types
pub mod Grant
pub mod Sameness
pub mod Invariant
pub mod Processing
mod Tests
