-- ===== src/Presence.antt =====
-- The presence kit of the browser, ui/presence.
pub mod Contract
pub mod Roster
pub mod Connect
