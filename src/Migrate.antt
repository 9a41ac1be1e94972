-- ===== src/Migrate.antt =====
-- pkg/migrate/migrate.go: the schema migrations.
pub mod Files
pub mod Snake
pub mod Names
pub mod Plan
pub mod Parse
pub mod Parsing
pub mod Directory
pub mod Stored
pub mod Sorted
pub mod Parsed
pub mod Run
pub mod Resume
pub mod Order
pub mod Versions
pub mod Rollback
pub mod Status
pub mod Consistent
pub mod Whole
mod Tests
mod FileTests
