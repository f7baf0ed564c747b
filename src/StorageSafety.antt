-- ===== src/StorageSafety.antt =====
-- Storage path components (ppbase/core/storage_safety.py).
pub mod Utf8
pub mod Component
pub mod Safe
pub mod LocalName
