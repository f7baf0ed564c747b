-- ===== src/Tests/SqlConsole.antt =====
-- Runs of the SQL console's model.
pub mod Driver
pub mod Splits
pub mod Runs
