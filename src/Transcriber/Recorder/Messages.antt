-- ===== src/Transcriber/Recorder/Messages.antt =====
-- What a transcriber accepts on its topic, and how chunks go out. The check of a message is that of
-- `handle_audio_chunk` in kits/audio_stream_in/topics.py, without its tolerance of gaps.
use chanx_kit.Audio.Chunker.{Bytes}
use chanx_kit.Transcriber.Contract.{
  audio_chunk, audio_end, audio_start, audio_config_request, ContractToServer,
}
use chanx_kit.Transcriber.Recorder.{on_chunk, send_all, send_chunk, stop_device, on_last}
use chanx_kit.Transcriber.Attempts.{Attempt, Recorder, Sender, put, send_message}
use mathlib.Core.Path.{subst}
use chanx_kit.Prelude.{
  some, none, true, false, List, Option, String, [], arith, eqb, eqb_iff, if◌then◌else◌, refl, suc,
  ℕ, ◌&&◌, ◌++◌, ◌∷◌, ◌≡◌, if_false, if_true, sym, ◌∙◌,
}

-- The stream as the receiver of the messages sees it: the function that sends it, and the number of
-- the next chunk.
pub data Stream : Type 0 where
  silent : Stream
  streaming : Sender → ℕ → Stream

-- One message: a stream may start at any time, since an error of the server has ended the one before;
-- a chunk has the next number; only an open stream can end.
abbrev pub hear : Stream → Sender × ContractToServer → Option Stream
hear stream (from, audio_start message) = some (streaming from 0)
hear (streaming send k) (from, audio_chunk message) =
    if eqb send from && eqb k message.payload.index then some (streaming send (suc k)) else none
hear (streaming send k) (from, audio_end message) = if eqb send from then some silent else none
hear silent (from, audio_chunk message) = none
hear silent (from, audio_end message) = none
hear stream (from, audio_config_request message) = some stream

abbrev pub hear_next : Sender × ContractToServer → Option Stream → Option Stream
hear_next m none = none
hear_next m (some stream) = hear stream m

-- All messages, the oldest first.
abbrev pub hear_all : Option Stream → List (Sender × ContractToServer) → Option Stream
hear_all stream [] = stream
hear_all stream (m ∷ ms) = hear_all (hear_next m stream) ms

hear_all-snoc :
    (stream : Option Stream) (ms : List (Sender × ContractToServer)) (m : Sender × ContractToServer)
    → hear_all stream (ms ++ m ∷ []) ≡ hear_next m (hear_all stream ms)
hear_all-snoc stream [] m = refl
hear_all-snoc stream (n ∷ ms) m = hear_all-snoc (hear_next n stream) ms m

abbrev pub heard : Recorder → Option Stream
heard r = hear_all (some silent) r.sent

-- The receiver waits for the next chunk of start `n`.
abbrev pub IsAt : ℕ → Recorder → Type 0
IsAt n r = heard r ≡ some (streaming (r.attempts n).send (r.attempts n).index)

pub heard-send_message :
    (send : Sender) (m : ContractToServer) (r : Recorder)
    → heard (send_message send m r) ≡ hear_next (send, m) (heard r)
heard-send_message send m r = hear_all-snoc (some silent) r.sent (send, m)

pub put-IsAt :
    (n k : ℕ) (a : Attempt) (r : Recorder)
    → a.send ≡ (r.attempts n).send
    → a.index ≡ (r.attempts n).index
    → IsAt k r
    → IsAt k (put n a r)
put-IsAt n k a r s i h = ground (arith, eqb_iff k n)

module _ (to_base64 : Bytes → String) where
  pub send_chunk-IsAt :
      (n : ℕ) (chunk : Bytes) (r : Recorder) → IsAt n r → IsAt n (send_chunk to_base64 n chunk r)
  send_chunk-IsAt n chunk r h =
      let a = r.attempts n in
      let m =
        audio_chunk
          (record { payload = record { index = a.index; data_value = to_base64 chunk } }) in
      let e = heard-send_message a.send m (put n (record a { index = suc a.index }) r) in
      let s = (eqb_iff a.send a.send).1 refl in
      let i = (eqb_iff a.index a.index).1 refl in let z = (eqb_iff n n).1 refl in ground arith

  pub send_all-IsAt :
      (n : ℕ) (chunks : List Bytes) (r : Recorder)
      → IsAt n r
      → IsAt n (send_all to_base64 n chunks r)
  unfolding send_all
  send_all-IsAt n [] r h = h
  send_all-IsAt n (chunk ∷ chunks) r h =
      send_all-IsAt n chunks (send_chunk to_base64 n chunk r) (send_chunk-IsAt n chunk r h)

  pub on_chunk-IsAt :
      (n : ℕ) (chunk : Bytes) (r : Recorder)
      → (r.attempts n).started ≡ true
      → IsAt n r
      → IsAt n (on_chunk to_base64 n chunk r)
  unfolding on_chunk
  on_chunk-IsAt n chunk r s h =
      subst (IsAt n) (sym (if_true (r.attempts n).started _ _ s)) (send_chunk-IsAt n chunk r h)

  pub stop_device-IsAt :
      (n : ℕ) (last : Option Bytes) (r : Recorder)
      → (r.attempts n).started ≡ true
      → IsAt n r
      → IsAt n (stop_device to_base64 n last r)
  stop_device-IsAt n none r s h = put-IsAt n n _ r refl refl h
  stop_device-IsAt n (some chunk) r s h =
      put-IsAt n n _ (on_chunk to_base64 n chunk r) refl refl (on_chunk-IsAt n chunk r s h)

  -- A start that has not sent `audio_start` only holds what comes.
  pub on_chunk_held :
      (n : ℕ) (chunk : Bytes) (r : Recorder)
      → (r.attempts n).started ≡ false
      → on_chunk to_base64 n chunk r
        ≡ put n (record (r.attempts n) { held = (r.attempts n).held ++ chunk ∷ [] }) r
  unfolding on_chunk
  on_chunk_held n chunk r s = if_false (r.attempts n).started _ _ s

  pub on_chunk_other :
      (n k : ℕ) (chunk : Bytes) (r : Recorder)
      → eqb k n ≡ false
      → (on_chunk to_base64 n chunk r).attempts k ≡ r.attempts k
  unfolding on_chunk
  on_chunk_other n k chunk r e = ground arith

  pub on_last_other :
      (n k : ℕ) (last : Option Bytes) (r : Recorder)
      → eqb k n ≡ false
      → (on_last to_base64 n last r).attempts k ≡ r.attempts k
  on_last_other n k none r e = refl
  on_last_other n k (some chunk) r e = on_chunk_other n k chunk r e

  pub send_all_other :
      (n k : ℕ) (chunks : List Bytes) (r : Recorder)
      → eqb k n ≡ false
      → (send_all to_base64 n chunks r).attempts k ≡ r.attempts k
  unfolding send_all
  send_all_other n k [] r e = refl
  send_all_other n k (chunk ∷ chunks) r e =
      send_all_other n k chunks (send_chunk to_base64 n chunk r) e ∙ rw e refl
