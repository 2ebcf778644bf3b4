-- ===== src/Core.antt =====
-- The crate `infractl-core` (crates/infractl-core/src).
pub mod Env
pub mod Config
pub mod Plan
pub mod Usecase
