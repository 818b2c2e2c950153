-- ===== src/Tests.antt =====
-- The theorems at concrete inputs, a component at a time.
pub mod Events
pub mod Keyboards
pub mod Chords
pub mod Endpoint
pub mod Motion
pub mod Doubles
pub mod Reports
pub mod Lights
pub mod Configs
pub mod Daemons
