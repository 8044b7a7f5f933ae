-- ===== src/Audio.antt =====
-- The audio helpers of the browser, ui/audio/core.ts.
pub mod Chunker
pub mod Resampler
pub mod Pcm
pub mod Base64
