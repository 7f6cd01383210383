-- ===== src/Scenario.antt =====
-- The scenario page (web/src/app/(panel)/router/scenario/page.tsx).
pub mod Config
pub mod Edits
pub mod Lists
pub mod Home
pub mod Wifi
pub mod Timing
pub mod Fallbacks
pub mod Reach
pub mod Status
