-- ===== src/Net.antt =====
-- Addresses of the network: web/src/lib/api/remote.ts, and the checks of
-- web/src/app/(panel)/router/lan/page.tsx on addresses and netmasks.
pub mod Ipv4
pub mod Mask
pub mod Prefix
pub mod Remote
pub mod RemoteHosts
