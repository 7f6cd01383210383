-- ===== src/Ubus.antt =====
-- Turning on ADB over the router's own web interface (web/src/lib/ubus.ts).
pub mod Rpc
pub mod Login
