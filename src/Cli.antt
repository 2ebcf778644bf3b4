-- ===== src/Cli.antt =====
-- The crate `infractl-cli` (crates/infractl-cli/src/commands/service.rs).
pub mod Order
pub mod Http
pub mod Health
pub mod Runtime
pub mod Readiness
pub mod Environment
pub mod Recovery
pub mod Execution
pub mod Snapshot
pub mod Status
pub mod Validation
pub mod BringUp
mod Tests
