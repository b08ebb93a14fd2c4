-- ===== src/Sql.antt =====
-- Database schemas and the steps between two of them.
pub mod Schema
pub mod Differ
pub mod Names
pub mod Tables
pub mod Unchanged
pub mod Steps
pub mod Made
pub mod Altered
pub mod Ordered
pub mod Inferrer
pub mod Checker
mod Samples
mod Tests
mod InferrerTests
pub mod Warned
pub mod Delayed
pub mod Columns
pub mod Waiting
pub mod Staying
pub mod DelayedColumns
pub mod Sqlite
pub mod Inferred
