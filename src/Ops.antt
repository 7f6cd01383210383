-- ===== src/Ops.antt =====
-- web/src/lib/ops.ts: what the page shows of the device's transactions.
pub mod Seen
pub mod Reads
pub mod Shown
pub mod Journal
