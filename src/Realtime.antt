-- ===== src/Realtime.antt =====
-- Realtime subscriptions and what is sent for them (ppbase/services/realtime_service.py).
pub mod Topic
pub mod Names
pub mod Manager
pub mod View
pub mod Audience
pub mod Allow
pub mod Delivery
pub mod Receive
pub mod Sent
pub mod Received
pub mod Subscribe
pub mod Bound
