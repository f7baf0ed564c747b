-- ===== src/CopyFormat.antt =====
-- The container of the tables in a native backup (ppbase/backup/copy_format.py).
pub mod Result
pub mod Chunks
pub mod Segment
pub mod RoundTrip
pub mod Layout
pub mod Writer
pub mod Emitted
pub mod Written
pub mod Segments
pub mod Export
pub mod Exported
pub mod Reader
pub mod Inflation
pub mod Reading
pub mod Verified
pub mod Import
pub mod Ended
