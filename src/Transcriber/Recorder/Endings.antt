-- ===== src/Transcriber/Recorder/Endings.antt =====
-- The end of a stream, by `stop` or by an error of the server, and the microphone that is given.
use chanx_kit.Audio.Chunker.{Bytes}
use chanx_kit.Transcriber.Contract.{audio_end, TranscriberError}
use chanx_kit.Transcriber.Recorder.{
  cancelled, end_stream, on_last, rest, stop_device, is_gap, on_error, opened, reported, stop,
}
use chanx_kit.Transcriber.Attempts.{
  recording, starting, idle, waiting, idle, starting, recording, waiting, over, Recorder,
  RecorderStatus, Sender, snapshot_of, is_idle,
}
use chanx_kit.Transcriber.Recorder.Frame.{on_last-Frame}
use chanx_kit.Transcriber.Recorder.Messages.{
  silent, streaming, Stream, heard, heard-send_message, on_last_other, stop_device-IsAt,
}
use chanx_kit.Transcriber.Recorder.Microphones.{IsSound, Shape, put_same, Frame-IsSound, show-Frame}
use chanx_kit.Transcriber.Recorder.Releases.{Shape-microphone, release-none, release-some}
use chanx_kit.Transcriber.Recorder.Protocol.{
  IsTold, idle≢recording, begin-IsTold, stop_device-IsTold,
}
use mathlib.Core.Path.{subst}
use chanx_kit.Transcriber.Recorder.Given.{opened_lem}
use chanx_kit.Prelude.{
  null, some, none, Option, Option-cases, String, ap, arith, eqb_iff, inl, inr, or_else, refl, suc,
  sym, ℕ, ◌∙◌, ◌≡◌, Bool-cases, eqb, if_both, not, ◌&&◌,
}

-- The recorder `c` has just let go of the microphone of `r`: the stream of `r`, if it had one, is
-- still open, and can be ended by the function that began it.
pub record IsCut (r c : Recorder) : Type 0 where
  pub stream : Stream
  pub accepted : heard c ≡ some stream
  pub ending :
      (snapshot_of r).status ≡ recording
      → (stream ≡ streaming (r.attempts r.generation).send (c.attempts r.generation).index)
        × (c.send_current ≡ some (r.attempts r.generation).send)
  pub first : (n : ℕ) → (c.attempts n).device ≡ waiting → (c.attempts n).index ≡ 0

Shape-recording :
    (s : RecorderStatus) (r : Recorder)
    → r.microphone ≡ some r.generation
    → Shape s r
    → s ≡ recording
Shape-recording idle r m h = let k = h.0 in ground arith
Shape-recording starting r m h = let k = h.0 in ground arith
Shape-recording recording r m h = refl

Shape-silent : (r : Recorder) → r.microphone ≡ none → Shape recording r → ⊥
Shape-silent r m h = let k = h.0 in ground arith

module _ (to_base64 : Bytes → String) where
  IsCut-none :
      (r : Recorder)
      → r.microphone ≡ none
      → IsSound r
      → IsTold r
      → IsCut r (record r { generation = suc r.generation })
  IsCut-none r m s h = record {
    stream = h.stream;
    accepted = h.accepted;
    ending = λ e. absurd (Shape-silent r m (subst (λ q. Shape q r) e s.shape));
    first = h.first;
  }

  IsCut-some :
      (last : Option Bytes) (r : Recorder)
      → r.microphone ≡ some r.generation
      → IsSound r
      → IsTold r
      → IsCut r
          (record (stop_device to_base64 r.generation last
            (record r { generation = suc r.generation })) { microphone = none })
  IsCut-some last r m s h =
      let n = r.generation in
      let r' = record r { generation = suc n } in
      let e = Shape-recording (snapshot_of r).status r m s.shape in
      let t = subst (λ q. Shape q r) e s.shape in
      let f = on_last-Frame to_base64 n last r' in
      let p =
        put_same n (record ((on_last to_base64 n last r').attempts n) { device = over })
          (on_last to_base64 n last r') in
      let a = stop_device-IsAt to_base64 n last r' t.1.1.0 (h.at e) in
      record {
        stream = streaming _ _;
        accepted = a;
        ending = λ z. (
          rw p (ap (λ q. streaming q ((on_last to_base64 n last r').attempts n).index) (f.send n)),
          f.current ∙ t.1.1.1,
        );
        first = λ k d.
            let o = h.first k in
            let q = on_last_other to_base64 n k last r' in ground (arith, eqb_iff k n);
      }

  pub cancelled-IsCut :
      (last : Option Bytes) (r : Recorder)
      → IsSound r
      → IsTold r
      → IsCut r (cancelled to_base64 last r)
  cancelled-IsCut last r s h = elim (Option-cases r.microphone) [
    | inl e ↦
        subst (IsCut r)
          (sym (release-none to_base64 last (record r { generation = suc r.generation }) e))
          (IsCut-none r e s h)
    | inr (n, e) ↦
        let g = Shape-microphone (snapshot_of r).status r n e s.shape in
        subst (IsCut r)
          (sym (
            release-some to_base64 last (record r { generation = suc r.generation }) r.generation
              (e ∙ ap some g)))
          (IsCut-some last r (e ∙ ap some g) s h)
  ]

  rest-IsTold :
      (r : Recorder) (stream : Stream)
      → heard r ≡ some stream
      → ((n : ℕ) → (r.attempts n).device ≡ waiting → (r.attempts n).index ≡ 0)
      → IsTold (rest to_base64 r)
  rest-IsTold r stream h f = record {
    stream = stream;
    accepted = h;
    at = λ e. absurd (idle≢recording e);
    first = f;
  }

  -- Ending the stream of a recording leaves the receiver with no stream.
  pub end_stream-silent :
      (send : Sender) (r c : Recorder)
      → (snapshot_of r).status ≡ recording
      → IsCut r c
      → heard (end_stream to_base64 send recording c) ≡ some silent
  end_stream-silent send r c e h =
      let k = h.ending e in
      let s = (r.attempts r.generation).send in
      let m =
        heard-send_message (or_else c.send_current send) (audio_end (record { payload = null }))
          c in
      let z = (eqb_iff s s).1 refl in m ∙ rw (k.1, h.accepted, k.0, z) refl

  end_stream-IsTold :
      (send : Sender) (s : RecorderStatus) (r c : Recorder)
      → (snapshot_of r).status ≡ s
      → IsCut r c
      → IsTold (rest to_base64 (end_stream to_base64 send s c))
  end_stream-IsTold send idle r c e h = rest-IsTold c h.stream h.accepted h.first
  end_stream-IsTold send starting r c e h = rest-IsTold c h.stream h.accepted h.first
  end_stream-IsTold send recording r c e h =
      rest-IsTold (end_stream to_base64 send recording c) silent (end_stream-silent send r c e h)
        h.first

  pub stop-IsTold :
      (send : Sender) (last : Option Bytes) (r : Recorder)
      → IsSound r
      → IsTold r
      → IsTold (stop to_base64 send last r)
  unfolding stop
  stop-IsTold send last r s h =
      if_both IsTold (is_idle (snapshot_of r).status) h
        (end_stream-IsTold send (snapshot_of r).status r _ refl (cancelled-IsCut last r s h))

  pub reported-IsTold :
      (error : TranscriberError) (r : Recorder) → IsTold r → IsTold (reported to_base64 error r)
  reported-IsTold error r h = record {
    stream = h.stream;
    accepted = h.accepted;
    at = h.at;
    first = h.first;
  }

  pub on_error-IsTold :
      (error : TranscriberError) (last : Option Bytes) (r : Recorder)
      → IsSound r
      → IsTold r
      → IsTold (on_error to_base64 error last r)
  unfolding on_error
  on_error-IsTold error last r s h =
      let r' = reported to_base64 error r in
      let s' = Frame-IsSound r r' (show-Frame _ r refl) s in
      let c = cancelled-IsCut last r' s' (reported-IsTold error r h) in
      if_both IsTold (not (is_gap error.code) && not (is_idle (snapshot_of r).status))
        (rest-IsTold (cancelled to_base64 last r') c.stream c.accepted c.first)
        (reported-IsTold error r h)

  pub opened-IsTold :
      (n : ℕ) (last : Option Bytes) (r : Recorder)
      → (r.attempts n).device ≡ waiting
      → IsSound r
      → IsTold r
      → IsTold (opened to_base64 n last r)
  opened-IsTold n last r w s h =
      subst IsTold (sym (opened_lem to_base64 n last r)) (elim (Bool-cases (eqb n r.generation)) [
        | inl e ↦
            let g = (eqb_iff n r.generation).0 e in
            rw (e, g) (begin-IsTold to_base64 r (rw (sym g) w) h)
        | inr e ↦ rw e (stop_device-IsTold to_base64 n last r (s.held n w) h)
      ])
