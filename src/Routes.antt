-- ===== src/Routes.antt =====
-- The routes of the panel (web/src/lib/routes.ts).
pub mod Table
pub mod Found
