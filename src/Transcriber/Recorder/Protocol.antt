-- ===== src/Transcriber/Recorder/Protocol.antt =====
-- What a recorder sends is a sequence of well-formed streams.
use chanx_kit.Audio.Chunker.{Bytes}
use chanx_kit.Transcriber.Recorder.{on_chunk, start_message, stop_device}
use chanx_kit.Transcriber.Attempts.{
  idle, recording, waiting, live, Attempt, Recorder, put, send_message, snapshot_of,
}
use chanx_kit.Transcriber.Recorder.Frame.{on_chunk-Frame, send_all-Frame}
use chanx_kit.Transcriber.Recorder.Messages.{
  on_chunk_other, streaming, IsAt, Stream, heard, heard-send_message, on_chunk-IsAt, on_chunk_held,
  put-IsAt, send_all-IsAt, hear_next, send_all_other,
}
use chanx_kit.Transcriber.Recorder.Microphones.{IsSound, Shape, put_same}
use chanx_kit.Transcriber.Recorder.Releases.{Shape-live_recording}
use mathlib.Core.Path.{subst}
use chanx_kit.Transcriber.Recorder.Given.{begun}
use chanx_kit.Prelude.{
  some, none, true, false, Option, String, [], arith, eqb_iff, refl, sym, ℕ, ◌≡◌, ◌≢◌, ap, ◌∙◌,
}

-- All messages have been accepted; while the recorder records, the receiver waits for the chunk that
-- it sends next; and a start that waits for its microphone has sent none.
pub record IsTold (r : Recorder) : Type 0 where
  pub stream : Stream
  pub accepted : heard r ≡ some stream
  pub at : (snapshot_of r).status ≡ recording → IsAt r.generation r
  pub first : (n : ℕ) → (r.attempts n).device ≡ waiting → (r.attempts n).index ≡ 0

pub put-IsTold :
    (n : ℕ) (a : Attempt) (r : Recorder)
    → a.send ≡ (r.attempts n).send
    → a.index ≡ (r.attempts n).index
    → (a.device ≡ waiting → (r.attempts n).device ≡ waiting)
    → IsTold r
    → IsTold (put n a r)
put-IsTold n a r s i w h = record {
  stream = h.stream;
  accepted = h.accepted;
  at = λ e. put-IsAt n r.generation a r s i (h.at e);
  first = λ k d. let o = h.first k in ground (arith, eqb_iff k n);
}

pub idle≢recording : idle ≢ recording
idle≢recording e = ground arith

module _ (to_base64 : Bytes → String) where
  pub held-IsTold :
      (n : ℕ) (chunk : Bytes) (r : Recorder)
      → (r.attempts n).started ≡ false
      → IsTold r
      → IsTold (on_chunk to_base64 n chunk r)
  held-IsTold n chunk r s h =
      subst IsTold (sym (on_chunk_held to_base64 n chunk r s))
        (put-IsTold n _ r refl refl (λ e. e) h)

  pub stop_device-IsTold :
      (n : ℕ) (last : Option Bytes) (r : Recorder)
      → (r.attempts n).started ≡ false
      → IsTold r
      → IsTold (stop_device to_base64 n last r)
  stop_device-IsTold n none r s h = put-IsTold n _ r refl refl (λ e. ground arith) h
  stop_device-IsTold n (some chunk) r s h =
      put-IsTold n _ (on_chunk to_base64 n chunk r) refl refl (λ e. ground arith)
        (held-IsTold n chunk r s h)

  pub captured-IsTold :
      (n : ℕ) (chunk : Bytes) (r : Recorder)
      → IsSound r
      → (r.attempts n).device ≡ live
      → IsTold r
      → IsTold (on_chunk to_base64 n chunk r)
  captured-IsTold n chunk r s e h =
      let o = s.others n in
      let g : n ≡ r.generation = ground (arith, eqb_iff n r.generation) in
      let k = Shape-live_recording (snapshot_of r).status r (rw (sym g) e) s.shape in
      let t = subst (λ q. Shape q r) k.1 s.shape in
      let f = on_chunk-Frame to_base64 r.generation chunk r in
      let a = on_chunk-IsAt to_base64 r.generation chunk r t.1.1.0 (h.at k.1) in
      rw g (record {
        stream = streaming _ _;
        accepted = a;
        at = λ z. rw (f.generation) a;
        first = λ m d.
            let o = h.first m in
            let q = on_chunk_other to_base64 r.generation m chunk r in
            let z = f.device m in let l = t.1.0 in ground (arith, eqb_iff m r.generation);
      })

  pub begin-IsTold :
      (r : Recorder)
      → (r.attempts r.generation).device ≡ waiting
      → IsTold r
      → IsTold (begun to_base64 r.generation (r.attempts r.generation) r)
  begin-IsTold r w h =
      let n = r.generation in
      let a = r.attempts n in
      let b = record a { device = live; started = true; held = [] } in
      let r' = put n b (record r { microphone = some n }) in
      let told = send_message a.send (start_message to_base64 a r.options) r' in
      let f = send_all-Frame to_base64 n a.held told in
      let m = heard-send_message a.send (start_message to_base64 a r.options) r' in
      let p = put_same n b (record r { microphone = some n }) in
      let at : IsAt n told = rw p (
        m
        ∙ ap (hear_next (a.send, start_message to_base64 a r.options)) h.accepted
        ∙ ap (λ i. some (streaming a.send i)) (sym (h.first n w))) in
      let all = send_all-IsAt to_base64 n a.held told at in
      record {
        stream = streaming _ _;
        accepted = all;
        at = λ z. rw (f.generation) all;
        first = λ k d.
            let o = h.first k in
            let q = send_all_other to_base64 n k a.held told in
            let z = f.device k in ground (arith, eqb_iff k r.generation);
      }
