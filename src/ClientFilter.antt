-- ===== src/ClientFilter.antt =====
-- The guard of a client's filter and sort expressions (ppbase/services/client_filter_guard.py).
pub mod Paths
pub mod Guard
pub mod Visits
pub mod Superuser
