-- ===== src/Migration.antt =====
-- The migration engine (migration-engine).
pub mod Steps
pub mod Calculator
pub mod Differ
pub mod Persistence
pub mod Applier
pub mod Roundtrip
pub mod Commands
pub mod Samples
mod Tests
