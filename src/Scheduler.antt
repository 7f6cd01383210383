-- ===== src/Scheduler.antt =====
-- The scheduler page: web/src/app/(panel)/scheduler.
pub mod Jobs
pub mod Form
pub mod Writes
pub mod Tiers
pub mod Saved
pub mod Agent
pub mod Armed
pub mod Checks
