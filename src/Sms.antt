-- ===== src/Sms.antt =====
-- Text messages: web/src/lib/sms.ts and the pages below web/src/app/(panel)/sms.
pub mod Body
pub mod BodyRoundtrip
