-- ===== src/Api.antt =====
-- web/src/lib/api: the errors that a request throws, the client and the freshness rule.
pub mod Errors
pub mod Client
pub mod Session
pub mod Kinds
pub mod Freshness
pub mod Ageing
pub mod Ticker
pub mod Binary
pub mod Store
pub mod Reboot
pub mod Once
