-- ===== src/Transcriber/Recorder/Releases.antt =====
-- Every run keeps at most one microphone open: stops and errors, and all steps together.
use chanx_kit.Audio.Chunker.{Bytes}
use chanx_kit.Transcriber.Contract.{TranscriberError}
use chanx_kit.Transcriber.Recorder.{
  release_of, cancelled, end_stream, is_gap, on_error, release, reported, rest, stop, stop_device,
}
use chanx_kit.Transcriber.Attempts.{
  idle, starting, recording, waiting, live, unasked, Recorder, RecorderStatus, Sender, is_idle,
  snapshot_of,
}
use chanx_kit.Transcriber.Recorder.Frame.{on_chunk-Frame, on_last-Frame}
use chanx_kit.Transcriber.Recorder.Microphones.{
  Frame-IsSound, IsSound, Shape, failed-IsSound, is_live, is_waiting, opened-IsSound, show-Frame,
  start-IsSound,
}
use chanx_kit.Transcriber.Recorder.Steps.{
  created, stepped, server_config, server_error, user_start, user_stop, microphone_opened,
  microphone_failed, microphone_level, chunk_held, chunk_captured, Reachable, Step,
}
use chanx_kit.Prelude.{
  some, none, false, Option, Option-cases, String, ap, arith, eqb_iff, if_both, inl, inr, not, refl,
  suc, sym, ℕ, ◌&&◌, ◌∙◌, ◌≡◌, ◌≤◌,
}

-- No microphone is open, and no start waits under the last number.
record IsQuiet (r : Recorder) : Type 0 where
  microphone : r.microphone ≡ none
  quiet : (n : ℕ) → is_live (r.attempts n).device ≡ false
  future : (n : ℕ) → r.generation ≤ n → (r.attempts n).device ≡ unasked
  held : (n : ℕ) → (r.attempts n).device ≡ waiting → (r.attempts n).started ≡ false

Shape-live :
    (s : RecorderStatus) (r : Recorder)
    → r.microphone ≡ none
    → Shape s r
    → is_live (r.attempts r.generation).device ≡ false
Shape-live idle r m h = h.1.0
Shape-live starting r m h = ap is_live h.1
Shape-live recording r m h = let k = h.0 in ground arith

pub Shape-microphone :
    (s : RecorderStatus) (r : Recorder) (n : ℕ)
    → r.microphone ≡ some n
    → Shape s r
    → n ≡ r.generation
Shape-microphone idle r n m h = let k = h.0 in ground arith
Shape-microphone starting r n m h = let k = h.0 in ground arith
Shape-microphone recording r n m h = let k = h.0 in ground arith

IsQuiet-none :
    (r : Recorder)
    → r.microphone ≡ none
    → IsSound r
    → IsQuiet (record r { generation = suc r.generation })
IsQuiet-none r m h =
    let l = Shape-live (snapshot_of r).status r m h.shape in
    record {
      microphone = m;
      quiet = λ n. let o = h.others n in ground (arith, eqb_iff n r.generation);
      future = λ n l. h.future n (ground arith);
      held = h.held;
    }

pub Shape-live_recording :
    (s : RecorderStatus) (r : Recorder)
    → (r.attempts r.generation).device ≡ live
    → Shape s r
    → (r.microphone ≡ some r.generation) × (s ≡ recording)
Shape-live_recording idle r e h = let k = h.1.0 in ground arith
Shape-live_recording starting r e h = let k = h.1 in ground arith
Shape-live_recording recording r e h = (h.0, refl)

module _ (to_base64 : Bytes → String) where
  pub release-none :
      (last : Option Bytes) (r : Recorder) → r.microphone ≡ none → release to_base64 last r ≡ r
  unfolding release
  release-none last r e = ap (λ m. release_of to_base64 m last r) e

  pub release-some :
      (last : Option Bytes) (r : Recorder) (n : ℕ)
      → r.microphone ≡ some n
      → release to_base64 last r ≡ record (stop_device to_base64 n last r) { microphone = none }
  unfolding release
  release-some last r n e = ap (λ m. release_of to_base64 m last r) e

  IsQuiet-some :
      (last : Option Bytes) (r : Recorder)
      → r.microphone ≡ some r.generation
      → IsSound r
      → IsQuiet
          (record (stop_device to_base64 r.generation last
            (record r { generation = suc r.generation })) { microphone = none })
  IsQuiet-some last r m h =
      let f =
        on_last-Frame to_base64 r.generation last (record r { generation = suc r.generation }) in
      record {
        microphone = refl;
        quiet = λ k. let o = h.others k in ground (arith, f.device k, eqb_iff k r.generation);
        future = λ k l.
            let o = h.future k in ground (arith, f.device k, f.generation, eqb_iff k r.generation);
        held = λ k d. let o = h.held k in ground (arith, f.device k, f.started k);
      }

  cancelled-IsQuiet :
      (last : Option Bytes) (r : Recorder) → IsSound r → IsQuiet (cancelled to_base64 last r)
  cancelled-IsQuiet last r h = elim (Option-cases r.microphone) [
    | inl e ↦
        rw (release-none last (record r { generation = suc r.generation }) e) (IsQuiet-none r e h)
    | inr (n, e) ↦
        let g = Shape-microphone (snapshot_of r).status r n e h.shape in
        rw (release-some last (record r { generation = suc r.generation }) n e, g)
          (IsQuiet-some last r (e ∙ ap some g) h)
  ]

  rest-IsSound : (r : Recorder) → IsQuiet r → IsSound (rest to_base64 r)
  rest-IsSound r h = record {
    shape =
        let o = h.future r.generation (omega arith) in
        (h.microphone, (ap is_live o, ap is_waiting o));
    others = λ n e. h.quiet n;
    future = λ n l. h.future n (omega arith);
    held = h.held;
  }

  end_stream-IsQuiet :
      (send : Sender) (s : RecorderStatus) (r : Recorder)
      → IsQuiet r
      → IsQuiet (end_stream to_base64 send s r)
  end_stream-IsQuiet send recording r h = record {
    microphone = h.microphone;
    quiet = h.quiet;
    future = h.future;
    held = h.held;
  }
  end_stream-IsQuiet send _ r h = h

  stop-IsSound :
      (send : Sender) (last : Option Bytes) (r : Recorder)
      → IsSound r
      → IsSound (stop to_base64 send last r)
  unfolding stop
  stop-IsSound send last r h = if_both IsSound (is_idle (snapshot_of r).status) h (
      rest-IsSound _
        (end_stream-IsQuiet send (snapshot_of r).status _ (cancelled-IsQuiet last r h)))

  on_error-IsSound :
      (error : TranscriberError) (last : Option Bytes) (r : Recorder)
      → IsSound r
      → IsSound (on_error to_base64 error last r)
  unfolding on_error
  on_error-IsSound error last r h =
      let h' = Frame-IsSound r (reported to_base64 error r) (show-Frame _ r refl) h in
      if_both IsSound (not (is_gap error.code) && not (is_idle (snapshot_of r).status))
        (rest-IsSound _ (cancelled-IsQuiet last (reported to_base64 error r) h')) h'

  Step-IsSound : (r r' : Recorder) → Step to_base64 r r' → IsSound r → IsSound r'
  Step-IsSound _ _ (server_config config r) h = Frame-IsSound r _ (show-Frame _ r refl) h
  Step-IsSound _ _ (server_error error last r) h = on_error-IsSound error last r h
  Step-IsSound _ _ (user_start send r) h = start-IsSound send r h
  Step-IsSound _ _ (user_stop send last r) h = stop-IsSound send last r h
  Step-IsSound _ _ (microphone_opened n last r w) h = opened-IsSound to_base64 n last r w h
  Step-IsSound _ _ (microphone_failed n message r w) h = failed-IsSound n message r w h
  Step-IsSound _ _ (microphone_level level r) h = Frame-IsSound r _ (show-Frame _ r refl) h
  Step-IsSound _ _ (chunk_held n chunk r w) h =
      Frame-IsSound r _ (on_chunk-Frame to_base64 n chunk r) h
  Step-IsSound _ _ (chunk_captured n chunk r w) h =
      Frame-IsSound r _ (on_chunk-Frame to_base64 n chunk r) h

  pub Reachable-IsSound : (r : Recorder) → Reachable to_base64 r → IsSound r
  Reachable-IsSound _ (created options) = record {
    shape = (refl, (refl, refl));
    others = λ n e. refl;
    future = λ n l. refl;
    held = λ n e. refl;
  }
  Reachable-IsSound _ (stepped r r' h s) = Step-IsSound r r' s (Reachable-IsSound r h)

  -- A microphone is live from when it is given to the start that asked for it, whether that start was
  -- cancelled or not, until it is stopped. Whatever the user, the server and the microphones do, in any
  -- order: after each step a live microphone is the recorder's own, so at most one is live, and the
  -- recorder shows that it is recording. What is captured before a microphone is given is no part of it.
  pub live_lem :
      (r : Recorder) (n : ℕ)
      → Reachable to_base64 r
      → (r.attempts n).device ≡ live
      → (r.microphone ≡ some n) × ((snapshot_of r).status ≡ recording)
  live_lem r n h e =
      let s = Reachable-IsSound r h in
      let o = s.others n in
      let g : n ≡ r.generation = ground (arith, eqb_iff n r.generation) in
      let k = Shape-live_recording (snapshot_of r).status r (rw (sym g) e) s.shape in
      (rw g k.0, k.1)
