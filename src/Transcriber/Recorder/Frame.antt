-- ===== src/Transcriber/Recorder/Frame.antt =====
-- What sending and holding chunks leaves alone.
use chanx_kit.Audio.Chunker.{Bytes}
use chanx_kit.Transcriber.Recorder.{on_chunk, on_last, send_all, send_chunk}
use chanx_kit.Transcriber.Attempts.{Recorder, put, snapshot_of}
use chanx_kit.Prelude.{
  some, none, List, Option, String, [], arith, eqb_iff, if_both, refl, ℕ, ◌∙◌, ◌∷◌, ◌≡◌,
}

-- The recorder has the same microphones, streams and status.
pub record Frame (r r' : Recorder) : Type 0 where
  pub generation : r'.generation ≡ r.generation
  pub microphone : r'.microphone ≡ r.microphone
  pub status : (snapshot_of r').status ≡ (snapshot_of r).status
  pub current : r'.send_current ≡ r.send_current
  pub device : (n : ℕ) → (r'.attempts n).device ≡ (r.attempts n).device
  pub started : (n : ℕ) → (r'.attempts n).started ≡ (r.attempts n).started
  pub send : (n : ℕ) → (r'.attempts n).send ≡ (r.attempts n).send

pub Frame-refl : (r : Recorder) → Frame r r
Frame-refl r = record {
  generation = refl;
  microphone = refl;
  status = refl;
  current = refl;
  device = λ n. refl;
  started = λ n. refl;
  send = λ n. refl;
}

pub Frame-trans : (a b c : Recorder) → Frame a b → Frame b c → Frame a c
Frame-trans a b c f g = record {
  generation = g.generation ∙ f.generation;
  microphone = g.microphone ∙ f.microphone;
  status = g.status ∙ f.status;
  current = g.current ∙ f.current;
  device = λ n. g.device n ∙ f.device n;
  started = λ n. g.started n ∙ f.started n;
  send = λ n. g.send n ∙ f.send n;
}

module _ (to_base64 : Bytes → String) where
  pub send_chunk-Frame :
      (n : ℕ) (chunk : Bytes) (r : Recorder) → Frame r (send_chunk to_base64 n chunk r)
  send_chunk-Frame n chunk r = record {
    generation = refl;
    microphone = refl;
    status = refl;
    current = refl;
    device = λ k. ground (arith, eqb_iff k n);
    started = λ k. ground (arith, eqb_iff k n);
    send = λ k. ground (arith, eqb_iff k n);
  }

  hold-Frame :
      (n : ℕ) (held : List Bytes) (r : Recorder)
      → Frame r (put n (record (r.attempts n) { held = held }) r)
  hold-Frame n held r = record {
    generation = refl;
    microphone = refl;
    status = refl;
    current = refl;
    device = λ k. ground (arith, eqb_iff k n);
    started = λ k. ground (arith, eqb_iff k n);
    send = λ k. ground (arith, eqb_iff k n);
  }

  pub on_chunk-Frame :
      (n : ℕ) (chunk : Bytes) (r : Recorder) → Frame r (on_chunk to_base64 n chunk r)
  unfolding on_chunk
  on_chunk-Frame n chunk r =
      if_both (Frame r) (r.attempts n).started (send_chunk-Frame n chunk r) (hold-Frame n _ r)

  pub on_last-Frame :
      (n : ℕ) (last : Option Bytes) (r : Recorder) → Frame r (on_last to_base64 n last r)
  on_last-Frame n none r = Frame-refl r
  on_last-Frame n (some chunk) r = on_chunk-Frame n chunk r

  pub send_all-Frame :
      (n : ℕ) (chunks : List Bytes) (r : Recorder) → Frame r (send_all to_base64 n chunks r)
  unfolding send_all
  send_all-Frame n [] r = Frame-refl r
  send_all-Frame n (chunk ∷ chunks) r =
      Frame-trans r (send_chunk to_base64 n chunk r) _ (send_chunk-Frame n chunk r)
        (send_all-Frame n chunks (send_chunk to_base64 n chunk r))
