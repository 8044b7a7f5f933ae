-- ===== src/Player.antt =====
-- The player kit of the browser, ui/player.
pub mod Contract
pub mod Playback
pub mod Tracks
pub mod Handlers
pub mod Connect
pub mod Sounds
pub mod Speaker
