-- ===== src/Notifications.antt =====
-- src/notifications/mod.rs: telling others what happened.
pub mod Event
pub mod Send
pub mod Results
pub mod Reach
