-- ===== src/Home.antt =====
-- What the home page shows of the signal (web/src/lib/home.ts, web/src/lib/signalWords.ts,
-- web/src/lib/connectState.ts).
pub mod Signal
pub mod Carriers
pub mod Serving
pub mod Network
pub mod Words
pub mod Spells
