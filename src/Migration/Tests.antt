-- ===== src/Migration/Tests.antt =====
-- Tests of the migration engine's models, and the theorems at concrete inputs.
mod Calculator
mod History
mod Applier
mod Differ
mod Roundtrip
mod Commands
mod Calculated
