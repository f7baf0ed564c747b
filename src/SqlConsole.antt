-- ===== src/SqlConsole.antt =====
-- The SQL console for superusers (ppbase/services/sql_console.py).
pub mod Lexer
pub mod Split
pub mod Progress
pub mod Literals
pub mod Digits
pub mod Classify
pub mod Explain
pub mod Harmless
pub mod Refused
pub mod Script
pub mod Execute
pub mod Atomic
