-- ===== src/Transcriber/Recorder/Chunks.antt =====
-- The chunks of one start: those held until `audio_start`, and the one that an error of the server
-- lets out.
use chanx_kit.Audio.Chunker.{Bytes}
use chanx_kit.Transcriber.Contract.{TranscriberError, audio_chunk, ContractToServer}
use chanx_kit.Transcriber.Recorder.{
  opened, send_all, send_chunk, start_message, stop_device, cancelled, is_gap, on_chunk, on_error,
  reported, rest,
}
use chanx_kit.Transcriber.Attempts.{
  recording, live, waiting, Recorder, Sender, put, send_message, is_idle, snapshot_of,
}
use chanx_kit.Transcriber.Recorder.Microphones.{put_same, Frame-IsSound, IsSound, Shape, show-Frame}
use chanx_kit.Transcriber.Recorder.Releases.{Reachable-IsSound, release-some}
use chanx_kit.Transcriber.Recorder.Runs.{Reachable-IsTold}
use chanx_kit.Transcriber.Recorder.Steps.{Reachable}
use mathlib.Core.Path.{subst}
use chanx_kit.Transcriber.Recorder.Given.{begun, opened_lem}
use chanx_kit.Prelude.{
  inl, inr, none, some, true, false, List, Option, String, [], ap, append-nil, append_assoc, eqb,
  eqb_iff, if_true, refl, suc, sym, ℕ, ◌++◌, ◌∙◌, ◌∷◌, ◌≡◌, Bool-cases, not, ◌&&◌,
}

module _ (to_base64 : Bytes → String) where
  abbrev pub chunk_message : ℕ → Bytes → ContractToServer
  chunk_message index chunk =
      audio_chunk (record { payload = record { index = index; data_value = to_base64 chunk } })

  -- Chunks numbered from `index`.
  abbrev pub chunk_messages : Sender → ℕ → List Bytes → List (Sender × ContractToServer)
  chunk_messages send index [] = []
  chunk_messages send index (chunk ∷ chunks) =
      (send, chunk_message index chunk) ∷ chunk_messages send (suc index) chunks

  sent-send_all :
      (n : ℕ) (chunks : List Bytes) (r : Recorder)
      → (send_all to_base64 n chunks r).sent
        ≡ r.sent ++ chunk_messages (r.attempts n).send (r.attempts n).index chunks
  unfolding send_all
  sent-send_all n [] r = sym (append-nil r.sent)
  sent-send_all n (chunk ∷ chunks) r =
      let a = r.attempts n in
      let p = put_same n (record a { index = suc a.index }) r in
      sent-send_all n chunks (send_chunk to_base64 n chunk r)
      ∙ rw p (
          append_assoc r.sent ((a.send, chunk_message a.index chunk) ∷ [])
            (chunk_messages a.send (suc a.index) chunks))

  -- In every run, a start that gets its microphone in time sends audio_start, and then all that was
  -- captured while it waited, in order and numbered from 0.
  pub sent-opened :
      (last : Option Bytes) (r : Recorder)
      → Reachable to_base64 r
      → (r.attempts r.generation).device ≡ waiting
      → (opened to_base64 r.generation last r).sent
        ≡ r.sent
          ++ (
            (r.attempts r.generation).send,
            start_message to_base64 (r.attempts r.generation) r.options,
          )
            ∷ chunk_messages (r.attempts r.generation).send 0 (r.attempts r.generation).held
  sent-opened last r h w =
      let n = r.generation in
      let a = r.attempts n in
      let b = record a { device = live; started = true; held = [] } in
      let r' = put n b (record r { microphone = some n }) in
      let m : Sender × ContractToServer = (a.send, start_message to_base64 a r.options) in
      let p = put_same n b (record r { microphone = some n }) in
      let i = (Reachable-IsTold to_base64 r h).first n w in
      let e =
        sent-send_all n a.held (send_message a.send (start_message to_base64 a r.options) r') in
      ap (λ q. q.sent)
        (opened_lem to_base64 n last r
          ∙ if_true (eqb n n) (begun to_base64 n a r) (stop_device to_base64 n last r)
              ((eqb_iff n n).1 refl))
      ∙ e
      ∙ rw (p, i) (append_assoc r.sent (m ∷ []) (chunk_messages a.send 0 a.held))

  on_error_recording :
      (error : TranscriberError) (last : Option Bytes) (r : Recorder)
      → is_gap error.code ≡ false
      → (snapshot_of r).status ≡ recording
      → on_error to_base64 error last r
        ≡ rest to_base64 (cancelled to_base64 last (reported to_base64 error r))
  unfolding on_error
  on_error_recording error last r g e =
      if_true (not (is_gap error.code) && not (is_idle (snapshot_of r).status)) _ _ (rw (g, e) refl)

  error-on_error-idle :
      (error : TranscriberError) (last : Option Bytes) (r : Recorder)
      → (snapshot_of (on_error to_base64 error last (rest to_base64 r))).error ≡ some error
  unfolding on_error
  error-on_error-idle error last r = elim (Bool-cases (is_gap error.code)) [
    | inl e ↦ rw e refl
    | inr e ↦ rw e refl
  ]

  pub sent-cancelled :
      (chunk : Bytes) (r : Recorder)
      → IsSound r
      → (snapshot_of r).status ≡ recording
      → (cancelled to_base64 (some chunk) r).sent
        ≡ r.sent
          ++ ((r.attempts r.generation).send, chunk_message (r.attempts r.generation).index chunk)
            ∷ []
  unfolding on_chunk
  sent-cancelled chunk r s e =
      let n = r.generation in
      let r' = record r { generation = suc n } in
      let t = subst (λ q. Shape q r) e s.shape in
      ap (λ q. q.sent) (release-some to_base64 (some chunk) r' n t.0)
      ∙ ap (λ q. q.sent)
          (if_true (r.attempts n).started (send_chunk to_base64 n chunk r') _ t.1.1.0)

  -- In every run: if an error other than audio_gap comes while the recorder records, and the microphone
  -- emits a last chunk as it is stopped, that chunk is sent after the error, with the next number of
  -- the stream; and whatever error comes in answer takes the place of the first in the snapshot.
  pub on_error_replaced :
      (error refusal : TranscriberError) (chunk : Bytes) (r : Recorder)
      → Reachable to_base64 r
      → (snapshot_of r).status ≡ recording
      → is_gap error.code ≡ false
      → ((on_error to_base64 error (some chunk) r).sent
          ≡ r.sent
            ++ ((r.attempts r.generation).send, chunk_message (r.attempts r.generation).index chunk)
              ∷ [])
        × ((snapshot_of
              (on_error to_base64 refusal none (on_error to_base64 error (some chunk) r))).error
            ≡ some refusal)
  on_error_replaced error refusal chunk r h e g =
      let r' = reported to_base64 error r in
      let s = Frame-IsSound r r' (show-Frame _ r refl) (Reachable-IsSound to_base64 r h) in
      let o = on_error_recording error (some chunk) r g e in
      (
        ap (λ q. q.sent) o ∙ sent-cancelled chunk r' s e,
        ap (λ q. (snapshot_of (on_error to_base64 refusal none q)).error) o
            ∙ error-on_error-idle refusal none (cancelled to_base64 (some chunk) r'),
      )
