-- ===== src/Adb.antt =====
-- web/src/lib/adb.ts: messages, transfers, the handshake, a shell command and a file transfer.
pub mod Wire
pub mod WireRoundtrip
pub mod Link
pub mod Client
pub mod Chunks
pub mod Transfer
pub mod Delivery
pub mod Push
pub mod PushRun
pub mod ShellOutput
pub mod ShellRun
