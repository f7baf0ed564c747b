-- ===== src/FieldTypes.antt =====
-- The values of record fields (ppbase/models/field_types.py).
pub mod Definition
pub mod Select
pub mod Text
pub mod References
pub mod Distinct
pub mod Selection
