-- ===== src/Firewall.antt =====
-- The firewall page: web/src/app/(panel)/router/firewall, its normalize.ts and the checks of its forms.
pub mod Json
pub mod Normalize
pub mod Read
pub mod Forms
pub mod Ports
