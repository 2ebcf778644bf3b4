-- ===== src/Adapters.antt =====
-- The crate `infractl-adapters`: the programs that manage services (crates/infractl-adapters/src).
pub mod World
pub mod Inspection
pub mod Chains
pub mod Rules
pub mod Launchd
pub mod Compose
pub mod Machine
pub mod Executor
pub mod Samples
mod Tests
