-- ===== src/Credentials.antt =====
-- Credentials: their own lifecycle and the published status lists (src/core/credentials).
pub mod Status
pub mod StatusList
