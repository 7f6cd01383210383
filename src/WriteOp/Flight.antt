-- ===== src/WriteOp/Flight.antt =====
-- Why at most one request of a write operation is in flight, and what its end can rely on
-- (web/src/lib/api/writeOp.ts): `Facts` the invariant, `Launch` and `Answers` the async methods,
-- `Clicks` the page's calls, `Sessions` whole histories.
pub mod Facts
pub mod Launch
pub mod StepError
pub mod Answers
pub mod Loops
pub mod Numbers
pub mod Clicks
pub mod Sessions
pub mod Histories
pub mod Safety
pub mod Sending
