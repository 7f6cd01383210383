-- ===== src/Diagnose.antt =====
-- web/src/lib/diagnose.ts: what the diagnosis page shows of a run.
pub mod Page
pub mod Order
