-- ===== src/Transcriber/Recorder/Steps.antt =====
-- The runs of a recorder: what the user, the server and the microphones of its starts can do, in any
-- order. A microphone calls back while it is being opened or is live, and no more once it is stopped.
use chanx_kit.Audio.Chunker.{Bytes}
use chanx_kit.Transcriber.Contract.{AudioConfig, TranscriberError}
use chanx_kit.Transcriber.Recorder.{
  failed, on_chunk, on_config, on_error, on_level, opened, start, stop,
}
use chanx_kit.Transcriber.Attempts.{
  waiting, live, Recorder, RecorderOptions, Sender, create_recorder,
}
use chanx_kit.Prelude.{Number, Option, String, ℕ, ◌≡◌}

module _ (to_base64 : Bytes → String) where
  pub data Step : Recorder → Recorder → Type 0 where
    server_config : (config : AudioConfig) (r : Recorder) → Step r (on_config config r)
    server_error :
        (error : TranscriberError) (last : Option Bytes) (r : Recorder)
        → Step r (on_error to_base64 error last r)
    user_start : (send : Sender) (r : Recorder) → Step r (start send r)
    user_stop :
        (send : Sender) (last : Option Bytes) (r : Recorder) → Step r (stop to_base64 send last r)
    microphone_opened :
        (n : ℕ) (last : Option Bytes) (r : Recorder)
        → (r.attempts n).device ≡ waiting
        → Step r (opened to_base64 n last r)
    microphone_failed :
        (n : ℕ) (message : String) (r : Recorder)
        → (r.attempts n).device ≡ waiting
        → Step r (failed n message r)
    microphone_level : (level : Number) (r : Recorder) → Step r (on_level level r)
    chunk_held :
        (n : ℕ) (chunk : Bytes) (r : Recorder)
        → (r.attempts n).device ≡ waiting
        → Step r (on_chunk to_base64 n chunk r)
    chunk_captured :
        (n : ℕ) (chunk : Bytes) (r : Recorder)
        → (r.attempts n).device ≡ live
        → Step r (on_chunk to_base64 n chunk r)

  -- The recorders that runs lead to.
  pub data Reachable : Recorder → Type 0 where
    created : (options : RecorderOptions) → Reachable (create_recorder options)
    stepped : (r r' : Recorder) → Reachable r → Step r r' → Reachable r'
