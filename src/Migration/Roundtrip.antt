-- ===== src/Migration/Roundtrip.antt =====
-- The differ and the calculator together (migration-engine/core/src/migration).
pub mod Fresh
pub mod Reread
pub mod Directives
pub mod Fields
pub mod Tops
pub mod Models
pub mod First
pub mod Repeated
pub mod Deleted
pub mod DeletedEnums
pub mod Emptied
