-- ===== src/Service/Migration.antt =====
-- agent/cg-agent/src/service/migration.rs: the migration of a console installation.
pub mod Calm
pub mod Arguments
pub mod Entries
pub mod Host
pub mod Route
pub mod Start
pub mod Files
pub mod Copies
pub mod Phases
pub mod Safety
pub mod Passes
pub mod Starts
pub mod Recovers
mod Tests
