-- ===== src/Statistics.antt =====
-- src/core/statistics/aggregate.ts: counting residents into cells, and withholding small cells.
pub mod Aggregate
pub mod Totals
pub mod Suppression
pub mod Disclosure
pub mod Marking
pub mod Thresholds
pub mod Dimensions
pub mod Counts
mod Tests
