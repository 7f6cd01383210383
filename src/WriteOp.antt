-- ===== src/WriteOp.antt =====
-- web/src/lib/api/writeOp.ts: the lifecycle of one write operation. `State` and `Reducer` are the
-- pure machine, `Controller`, `Resume`,
-- `Actions` and `Session` its asynchronous side; the other modules prove.
pub mod State
pub mod Reducer
pub mod Controller
pub mod Resume
pub mod Actions
pub mod Session
pub mod Consent
pub mod Runs
pub mod StepLists
pub mod Flight
