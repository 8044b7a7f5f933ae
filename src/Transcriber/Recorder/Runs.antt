-- ===== src/Transcriber/Recorder/Runs.antt =====
-- All steps of a run together: what has been sent at any time.
use chanx_kit.Audio.Chunker.{Bytes}
use chanx_kit.Transcriber.Recorder.{cancelled, stop, end_stream, rest}
use chanx_kit.Transcriber.Attempts.{
  recording, Recorder, RecorderSnapshot, Sender, show, snapshot_of, is_idle,
}
use chanx_kit.Transcriber.Recorder.Microphones.{IsSound}
use chanx_kit.Transcriber.Recorder.Messages.{silent, Stream, heard}
use chanx_kit.Transcriber.Recorder.Protocol.{IsTold, captured-IsTold, held-IsTold, idle≢recording}
use chanx_kit.Transcriber.Recorder.Endings.{
  cancelled-IsCut, end_stream-silent, on_error-IsTold, opened-IsTold, stop-IsTold,
}
use chanx_kit.Transcriber.Recorder.Starts.{start-IsTold, failed-IsTold}
use chanx_kit.Transcriber.Recorder.Releases.{Reachable-IsSound}
use chanx_kit.Transcriber.Recorder.Steps.{
  created, stepped, server_config, server_error, user_start, user_stop, microphone_opened,
  microphone_failed, microphone_level, chunk_held, chunk_captured, Reachable, Step,
}
use mathlib.Core.Path.{subst}
use chanx_kit.Prelude.{some, Option, String, refl, sym, ◌∙◌, ◌≡◌, if◌then◌else◌}

show-IsTold :
    (next : RecorderSnapshot) (r : Recorder)
    → next.status ≡ (snapshot_of r).status
    → IsTold r
    → IsTold (show next r)
show-IsTold next r e h = record {
  stream = h.stream;
  accepted = h.accepted;
  at = λ s. h.at (sym e ∙ s);
  first = h.first;
}

module _ (to_base64 : Bytes → String) where
  Step-IsTold : (r r' : Recorder) → Step to_base64 r r' → IsSound r → IsTold r → IsTold r'
  Step-IsTold _ _ (server_config config r) s h = show-IsTold _ r refl h
  Step-IsTold _ _ (server_error error last r) s h = on_error-IsTold to_base64 error last r s h
  Step-IsTold _ _ (user_start send r) s h = start-IsTold send r h
  Step-IsTold _ _ (user_stop send last r) s h = stop-IsTold to_base64 send last r s h
  Step-IsTold _ _ (microphone_opened n last r w) s h = opened-IsTold to_base64 n last r w s h
  Step-IsTold _ _ (microphone_failed n message r w) s h = failed-IsTold n message r h
  Step-IsTold _ _ (microphone_level level r) s h = show-IsTold _ r refl h
  Step-IsTold _ _ (chunk_held n chunk r w) s h = held-IsTold to_base64 n chunk r (s.held n w) h
  Step-IsTold _ _ (chunk_captured n chunk r l) s h = captured-IsTold to_base64 n chunk r s l h

  pub Reachable-IsTold : (r : Recorder) → Reachable to_base64 r → IsTold r
  Reachable-IsTold _ (created options) = record {
    stream = silent;
    accepted = refl;
    at = λ e. absurd (idle≢recording e);
    first = λ n d. refl;
  }
  Reachable-IsTold _ (stepped r r' h s) =
      Step-IsTold r r' s (Reachable-IsSound to_base64 r h) (Reachable-IsTold r h)

  -- In every run, with any number of starts, cancelled or not, and with any senders, the messages of
  -- the recorder are well-formed streams: every chunk follows the audio_start of its own sender and
  -- has the next number, from 0, and only an open stream is ended.
  pub accepted_lem :
      (r : Recorder) → Reachable to_base64 r → (stream : Stream) × (heard r ≡ some stream)
  accepted_lem r h = let t = Reachable-IsTold r h in (t.stream, t.accepted)

  -- After a stop, whatever the microphone emits last, and whoever stops it, no stream is open if the
  -- recorder was recording.
  pub stop_closes :
      (send : Sender) (last : Option Bytes) (r : Recorder)
      → Reachable to_base64 r
      → (snapshot_of r).status ≡ recording
      → heard (stop to_base64 send last r) ≡ some silent
  unfolding stop
  stop_closes send last r h e =
      let c =
        cancelled-IsCut to_base64 last r (Reachable-IsSound to_base64 r h) (Reachable-IsTold r h) in
      subst
        (λ q.
          heard (
            if is_idle q
            then r
            else rest to_base64 (end_stream to_base64 send q (cancelled to_base64 last r)))
          ≡ some silent)
        (sym e) (end_stream-silent to_base64 send r (cancelled to_base64 last r) e c)
