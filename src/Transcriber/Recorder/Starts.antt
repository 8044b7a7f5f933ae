-- ===== src/Transcriber/Recorder/Starts.antt =====
-- What has been sent when a start is called, and when it fails.
use chanx_kit.Transcriber.Recorder.{failed, start}
use chanx_kit.Transcriber.Attempts.{
  recording, starting, starting, recording, over, Recorder, Sender, snapshot_of, is_idle,
}
use chanx_kit.Transcriber.Recorder.Protocol.{IsTold, idle≢recording, put-IsTold}
use chanx_kit.Prelude.{String, arith, eqb_iff, refl, suc, ℕ, eqb, if_both, ◌≢◌}

starting≢recording : starting ≢ recording
starting≢recording e = ground arith

pub start-IsTold : (send : Sender) (r : Recorder) → IsTold r → IsTold (start send r)
unfolding start
start-IsTold send r h =
    if_both IsTold (is_idle (snapshot_of r).status)
      (record {
        stream = h.stream;
        accepted = h.accepted;
        at = λ e. absurd (starting≢recording e);
        first = λ k d. let o = h.first k in ground (arith, eqb_iff k (suc r.generation));
      })
      h

pub failed-IsTold :
    (n : ℕ) (message : String) (r : Recorder) → IsTold r → IsTold (failed n message r)
unfolding failed
failed-IsTold n message r h =
    let p =
      put-IsTold n (record (r.attempts n) { device = over }) r refl refl (λ e. ground arith) h in
    if_both IsTold (eqb n r.generation)
      (record {
        stream = p.stream;
        accepted = p.accepted;
        at = λ e. absurd (idle≢recording e);
        first = p.first;
      })
      p
