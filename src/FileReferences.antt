-- ===== src/FileReferences.antt =====
-- The local files of a record (ppbase/services/file_references.py).
pub mod Row
pub mod Canonical
