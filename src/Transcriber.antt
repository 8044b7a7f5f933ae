-- ===== src/Transcriber.antt =====
-- The transcriber kit of the browser, ui/transcriber.
pub mod Contract
pub mod Utterances
pub mod Attempts
pub mod Recorder
pub mod Capture
pub mod Microphone
pub mod Connect
