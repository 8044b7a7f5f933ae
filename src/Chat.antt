-- ===== src/Chat.antt =====
-- The chat kit of the browser, ui/chat.
pub mod Contract
pub mod Log
pub mod Connect
