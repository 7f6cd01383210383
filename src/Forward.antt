-- ===== src/Forward.antt =====
-- The SMS forwarding page: web/src/app/(panel)/sms/forward/page.tsx.
pub mod Rules
pub mod Saved
pub mod Edited
pub mod Tidy
pub mod Checks
pub mod Retry
