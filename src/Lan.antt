-- ===== src/Lan.antt =====
-- The LAN page: web/src/app/(panel)/router/lan/page.tsx.
pub mod Form
pub mod Apply
pub mod Range
pub mod Readback
