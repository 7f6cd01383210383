-- ===== src/Wifi.antt =====
-- The Wi-Fi pages (web/src/app/(panel)/router/wifi and web/src/app/(panel)/router/wifi-guest).
pub mod Fields
pub mod Form
pub mod Apply
pub mod Ask
pub mod Readback
pub mod Allowed
