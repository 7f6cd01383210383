-- ===== src/Esim.antt =====
-- The eSIM page (web/src/app/(panel)/router/esim/page.tsx).
pub mod Jobs
pub mod JobEnds
pub mod Page
pub mod Nickname
