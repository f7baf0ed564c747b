-- ===== src/Tests.antt =====
-- Runs of the models on concrete inputs, and the theorems at concrete inputs.
pub mod Ascii
pub mod SqlConsole
pub mod RateLimit
pub mod StorageSafety
pub mod ClientFilter
pub mod Rules
pub mod FieldTypes
pub mod FileReferences
pub mod CopyFormat
pub mod Realtime
pub mod Hooks
