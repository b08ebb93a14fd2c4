-- ===== src/Datamodel.antt =====
-- The datamodel library (libs/datamodel).
pub mod Ast
