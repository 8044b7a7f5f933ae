-- ===== src/Transcriber/Connect/Closing.antt =====
-- What is sent when a recording is closed, and that nothing is sent after the topic is left.
use chanx_kit.Audio.Chunker.{Bytes}
use chanx_kit.Transcriber.Attempts.{
  idle, starting, recording, Recorder, RecorderStatus, Sender, is_idle, snapshot_of,
}
use chanx_kit.Transcriber.Contract.{audio_end, ContractToServer}
use chanx_kit.Controller.{
  Call, controller_stop, controller_send, own, relayed, relayed-append, relayed_none,
}
use chanx_kit.Transcriber.Connect.{Connected, close, relay, stop}
use chanx_kit.Transcriber.Recorder.{stop as stop_recorder, cancelled, end_stream, rest}
use chanx_kit.Transcriber.Recorder.Chunks.{chunk_message, sent-cancelled}
use chanx_kit.Transcriber.Recorder.Microphones.{IsSound, Shape}
use chanx_kit.Transcriber.Recorder.Steps.{stepped, user_stop, Reachable}
use mathlib.Core.Path.{ap₂, subst}
use chanx_kit.Transcriber.Recorder.Releases.{release-none, release-some, Reachable-IsSound}
use chanx_kit.Transcriber.Recorder.Silence.{Later, sent-Later}
use chanx_kit.Prelude.{
  some, none, null, List, Option, String, [], ap, append-nil, append_assoc, if◌then◌else◌, map,
  or_else, refl, suc, sym, ℕ, ◌++◌, ◌∙◌, ◌∷◌, ◌≡◌,
}

module _ (to_base64 : Bytes → String) where
  abbrev pub last_messages : ℕ → Option Bytes → List ContractToServer
  last_messages index none = []
  last_messages index (some chunk) = chunk_message to_base64 index chunk ∷ []

  -- What ends the stream of a recorder: the last chunk of the microphone and audio_end while it
  -- records, and nothing before.
  abbrev pub ending_of : RecorderStatus → ℕ → Option Bytes → List ContractToServer
  ending_of idle index last = []
  ending_of starting index last = []
  ending_of recording index last =
      last_messages index last ++ audio_end (record { payload = null }) ∷ []

  abbrev pub ending : Option Bytes → Recorder → List ContractToServer
  ending last r = ending_of (snapshot_of r).status (r.attempts r.generation).index last

  -- The messages, without the function that sent them, by which r' has sent more than r.
  record Sends (r r' : Recorder) (messages : List ContractToServer) : Type 0 where
    tagged : List (Sender × ContractToServer)
    sent : r'.sent ≡ r.sent ++ tagged
    told : map (λ m. m.1) tagged ≡ messages

  cut_short :
      (last : Option Bytes) (r : Recorder)
      → r.microphone ≡ none
      → (cancelled to_base64 last r).sent ≡ r.sent
  cut_short last r e =
      ap (λ q. q.sent) (release-none to_base64 last (record r { generation = suc r.generation }) e)

  cut_whole :
      (n : ℕ) (r : Recorder) → r.microphone ≡ some n → (cancelled to_base64 none r).sent ≡ r.sent
  cut_whole n r e =
      ap (λ q. q.sent)
        (release-some to_base64 none (record r { generation = suc r.generation }) n e)

  Sends-recording :
      (send : Sender) (last : Option Bytes) (r : Recorder)
      → IsSound r
      → (snapshot_of r).status ≡ recording
      → Sends r
          (rest to_base64 (end_stream to_base64 send recording (cancelled to_base64 last r)))
          (ending_of recording (r.attempts r.generation).index last)
  Sends-recording send none r s e =
      let c = cancelled to_base64 none r in
      let t = subst (λ q. Shape q r) e s.shape in
      let m : Sender × ContractToServer =
        (or_else c.send_current send, audio_end (record { payload = null })) in
      record {
        tagged = m ∷ [];
        sent =
            ap (λ (l : List (Sender × ContractToServer)). l ++ m ∷ [])
              (cut_whole r.generation r t.0);
        told = refl;
      }
  Sends-recording send (some chunk) r s e =
      let c = cancelled to_base64 (some chunk) r in
      let m : Sender × ContractToServer =
        (or_else c.send_current send, audio_end (record { payload = null })) in
      let k : Sender × ContractToServer = (
        (r.attempts r.generation).send,
        chunk_message to_base64 (r.attempts r.generation).index chunk,
      ) in
      record {
        tagged = k ∷ m ∷ [];
        sent =
            ap (λ (l : List (Sender × ContractToServer)). l ++ m ∷ [])
              (sent-cancelled to_base64 chunk r s e)
            ∙ append_assoc r.sent (k ∷ []) (m ∷ []);
        told = refl;
      }

  Sends-status :
      (send : Sender) (last : Option Bytes) (r : Recorder) (q : RecorderStatus)
      → IsSound r
      → (snapshot_of r).status ≡ q
      → Sends r
          (if is_idle q
            then r
            else rest to_base64 (end_stream to_base64 send q (cancelled to_base64 last r)))
          (ending_of q (r.attempts r.generation).index last)
  Sends-status send last r idle s e = record {
    tagged = [];
    sent = sym (append-nil r.sent);
    told = refl;
  }
  Sends-status send last r starting s e =
      let t = subst (λ q. Shape q r) e s.shape in
      record { tagged = []; sent = cut_short last r t.0 ∙ sym (append-nil r.sent); told = refl }
  Sends-status send last r recording s e = Sends-recording send last r s e

  Sends-stop :
      (send : Sender) (last : Option Bytes) (r : Recorder)
      → IsSound r
      → Sends r (stop_recorder to_base64 send last r) (ending last r)
  unfolding stop_recorder
  Sends-stop send last r s = Sends-status send last r (snapshot_of r).status s refl

  status-stop :
      (send : Sender) (last : Option Bytes) (r : Recorder) (q : RecorderStatus)
      → (snapshot_of r).status ≡ q
      → (snapshot_of (
          if is_idle q
          then r
          else rest to_base64 (end_stream to_base64 send q (cancelled to_base64 last r)))).status
        ≡ idle
  status-stop send last r idle e = e
  status-stop send last r starting e = refl
  status-stop send last r recording e = refl

  stop-idle :
      (send : Sender) (last : Option Bytes) (r : Recorder)
      → (snapshot_of (stop_recorder to_base64 send last r)).status ≡ idle
  unfolding stop_recorder
  stop-idle send last r = status-stop send last r (snapshot_of r).status refl

  -- Closing a connected recorder, in any run: what is still to be sent of a recording, its last chunk
  -- and audio_end, goes to the controller before the topic is left; and after that nothing does, until
  -- the recorder is started again, whatever the server says and whatever microphones are still given.
  pub calls-close :
      (last : Option Bytes) (c : Connected) (r : Recorder)
      → Reachable to_base64 c.recorder
      → Later to_base64 (close to_base64 last c).recorder r
      → (relay r (close to_base64 last c)).calls
        ≡ c.calls ++ map controller_send (ending last c.recorder) ++ controller_stop ∷ []
  unfolding close stop
  calls-close last c r h l =
      let r0 = c.recorder in
      let r1 = stop_recorder to_base64 own last r0 in
      let s = Sends-stop own last r0 (Reachable-IsSound to_base64 r0 h) in
      let quiet =
        (sent-Later to_base64 r1 r (stepped r0 r1 h (user_stop own last r0)) (stop-idle own last r0)
          l).0 in
      let calls = c.calls ++ map controller_send (ending last r0) in
      let first : c.calls ++ relayed r0.sent r1.sent ≡ calls =
        ap (λ (l : List (Call ContractToServer)). c.calls ++ l)
          (ap (relayed r0.sent) s.sent
            ∙ relayed-append r0.sent s.tagged
            ∙ ap (map controller_send) s.told) in
      let later : relayed r1.sent r.sent ≡ [] = ap (relayed r1.sent) quiet ∙ relayed_none r1.sent in
      ap₂ (λ (l m : List (Call ContractToServer)). (l ++ controller_stop ∷ []) ++ m) first later
      ∙ append-nil (calls ++ controller_stop ∷ [])
