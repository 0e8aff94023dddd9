-- ===== src/Identity/Links.antt =====
-- src/core/identity/identity-link.ts: the registry of identity links over its in-memory store. The
-- clock is an argument; the identifiers that `newId` draws are those of a sequence, and the store
-- counts how many were drawn. `lower` is toLowerCase.
pub mod Types
pub mod Store
pub mod Changes
pub mod Single
pub mod Relinking
pub mod Merging
pub mod Reads
pub mod Invariant
pub mod Owners
pub mod Effects
pub mod Assigning
pub mod Reassigning
pub mod Pending
pub mod Rounds
pub mod Merges
pub mod Splits
pub mod Undoing
pub mod Kept
pub mod Runs
mod Tests
