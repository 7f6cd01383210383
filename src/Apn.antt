-- ===== src/Apn.antt =====
-- The APN page: web/src/app/(panel)/router/apn/page.tsx.
pub mod Profiles
pub mod Saves
pub mod Kept
