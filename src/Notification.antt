-- ===== src/Notification.antt =====
-- The notification kit of the browser, ui/notification.
pub mod Contract
pub mod Feed
pub mod Connect
