-- ===== src/Trend.antt =====
-- The curves of the last minutes: web/src/lib/liveTrend.ts and web/src/lib/cpuTrend.ts.
pub mod Samples
pub mod Recent
