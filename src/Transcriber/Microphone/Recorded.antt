-- ===== src/Transcriber/Microphone/Recorded.antt =====
-- From the frames that the microphone captures to what is heard of a recording.
