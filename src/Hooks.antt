-- ===== src/Hooks.antt =====
-- Hooks of the extensions (ppbase/ext/hooks.py, ppbase/ext/events.py).
pub mod Chain
pub mod Registry
pub mod Once
pub mod Order
