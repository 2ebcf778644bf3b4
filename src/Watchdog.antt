-- ===== src/Watchdog.antt =====
-- The crate `belter-watchdog` (crates/belter-watchdog/src/main.rs).
pub mod Config
pub mod Json
pub mod Health
pub mod Log
pub mod World
pub mod Process
pub mod Cycle
pub mod Loop
pub mod Rules
pub mod Events
pub mod Stats
mod Samples
mod Tests
