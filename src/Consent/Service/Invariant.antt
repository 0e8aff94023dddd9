-- ===== src/Consent/Service/Invariant.antt =====
-- At most one consent is active between a resident and a relying party.
mod Defs
mod Writes
pub mod Reads
mod Replace
pub mod Grants
pub mod Runs
unfoldable pub use Defs.*
pub use Writes.*
