-- ===== src/Transcriber/Recorder.antt =====
-- `createRecorder` of ui/transcriber/core.ts: the microphone of one user, and the stream to the
-- server. `start` waits for the microphone, so several starts may be under way; each has the local
-- variables of its call, an `Attempt`, under the number that it drew from `generation`. The
-- microphone itself is no code of the kit's state: what it does comes as calls of `opened`,
-- `failed`, `on_chunk` and `on_level`, and `last` is the partial chunk that its `stop` emits first.
pub mod Given
pub mod Steps
pub mod Frame
pub mod Microphones
pub mod Releases
pub mod Messages
pub mod Protocol
pub mod Endings
pub mod Starts
pub mod Runs
pub mod Chunks
pub mod Silence
mod Tests
use chanx_kit.Audio.Chunker.{Bytes}
use chanx_kit.Transcriber.Contract.{
  audio_chunk, audio_end, audio_start, provider_unavailable, audio_gap, AudioConfig,
  ContractToServer, TranscriberError, TranscriberErrorCode,
}
use chanx_kit.Transcriber.Attempts.{
  idle, starting, recording, unasked, waiting, live, over, Attempt, Recorder, RecorderOptions,
  RecorderStatus, Sender, is_idle, new_attempt, put, send_message, show, snapshot_of,
}
use chanx_kit.Store.{Store, create, publish}
use chanx_kit.Prelude.{
  value, absent, null, some, none, true, false, Bool, List, Number, Option, String, [], eqb,
  if◌then◌else◌, is_true, not, or_else, suc, ℕ, ◌&&◌, ◌++◌, ◌∷◌,
}

-- `start`, up to its `await`: the call draws a number and asks for the microphone.
unfoldable pub start : Sender → Recorder → Recorder
start send r =
    if is_idle (snapshot_of r).status
    then show (record (snapshot_of r) { status = starting; error = none })
        (put (suc r.generation) (new_attempt send r) (record r { generation = suc r.generation }))
    else r

-- `onLevel`
abbrev pub on_level : Number → Recorder → Recorder
on_level level r = show (record (snapshot_of r) { level = level }) r

abbrev pub is_gap : TranscriberErrorCode → Bool
is_gap audio_gap = true
is_gap _ = false

-- The catch clause of `start`; `message` is what it makes of the error.
unfoldable pub failed : ℕ → String → Recorder → Recorder
failed n message r =
    let r' = put n (record (r.attempts n) { device = over }) r in
    if eqb n r.generation
    then show
        (record (snapshot_of r) {
          status = idle;
          error = some (record { code = provider_unavailable; message = message });
        })
        r'
    else r'

-- `toBase64` calls the browser's own encoder.
module _ (to_base64 : Bytes → String) where
  -- `sendChunk` of one start
  abbrev pub send_chunk : ℕ → Bytes → Recorder → Recorder
  send_chunk n chunk r =
      let a = r.attempts n in
      send_message a.send
        (audio_chunk
          (record { payload = record { index = a.index; data_value = to_base64 chunk } }))
        (put n (record a { index = suc a.index }) r)

  -- `onChunk` of one start
  unfoldable pub on_chunk : ℕ → Bytes → Recorder → Recorder
  on_chunk n chunk r =
      if (r.attempts n).started
      then send_chunk n chunk r
      else put n (record (r.attempts n) { held = (r.attempts n).held ++ chunk ∷ [] }) r

  abbrev pub on_last : ℕ → Option Bytes → Recorder → Recorder
  on_last n none r = r
  on_last n (some chunk) r = on_chunk n chunk r

  -- `stop()` of the microphone that start `n` was given
  abbrev pub stop_device : ℕ → Option Bytes → Recorder → Recorder
  stop_device n last r =
      let r' = on_last n last r in put n (record (r'.attempts n) { device = over }) r'

  -- `microphone?.stop()` and `microphone = null`
  abbrev pub release_of : Option ℕ → Option Bytes → Recorder → Recorder
  release_of none last r = r
  release_of (some n) last r = record (stop_device n last r) { microphone = none }

  unfoldable pub release : Option Bytes → Recorder → Recorder
  release last r = release_of r.microphone last r

  -- `held.splice(0).forEach(sendChunk)`
  unfoldable pub send_all : ℕ → List Bytes → Recorder → Recorder
  send_all n [] r = r
  send_all n (chunk ∷ chunks) r = send_all n chunks (send_chunk n chunk r)

  abbrev pub start_message : Attempt → RecorderOptions → ContractToServer
  start_message a options = audio_start (record {
    payload = record {
      sample_rate = some a.sample_rate;
      channels = some a.channels;
      language = elim options.language [
        | none ↦ absent
        | some l ↦ if is_true l then value l else absent
      ];
    };
  })

  -- The end of `start`: the held chunks follow `audio_start`.
  unfoldable pub begin : ℕ → Recorder → Recorder
  unfolding send_all
  begin n r =
      let a = r.attempts n in
      let told =
        send_message a.send (start_message a r.options)
          (put n (record a { started = true; held = [] }) (record r { microphone = some n })) in
      let flushed = send_all n a.held told in
      show (record (snapshot_of flushed) { status = recording })
        (record flushed { send_current = some a.send })

  -- The browser opens the microphone for start `n`: it is live, whatever the start does with it.
  abbrev pub given : ℕ → Recorder → Recorder
  given n r = put n (record (r.attempts n) { device = live }) r

  -- The rest of `start`, once the microphone has been given.
  unfoldable pub opened : ℕ → Option Bytes → Recorder → Recorder
  unfolding begin
  opened n last r =
      let g = given n r in if eqb n r.generation then begin n g else stop_device n last g

  -- What `stop` and an error that ends the stream have in common at their end.
  abbrev pub rest : Recorder → Recorder
  rest r =
      show (record (snapshot_of r) { status = idle; level = "0" })
        (record r { send_current = none })

  abbrev pub cancelled : Option Bytes → Recorder → Recorder
  cancelled last r = release last (record r { generation = suc r.generation })

  -- `(sendCurrent ?? send)({ action: 'audio_end' })`, if the status was recording
  abbrev pub end_stream : Sender → RecorderStatus → Recorder → Recorder
  end_stream send recording r =
      send_message (or_else r.send_current send) (audio_end (record { payload = null })) r
  end_stream send status r = r

  unfoldable pub stop : Sender → Option Bytes → Recorder → Recorder
  unfolding release
  stop send last r =
      if is_idle (snapshot_of r).status
      then r
      else rest (end_stream send (snapshot_of r).status (cancelled last r))

  abbrev pub reported : TranscriberError → Recorder → Recorder
  reported payload r = show (record (snapshot_of r) { error = some payload }) r

  -- `on.transcriber_error`
  unfoldable pub on_error : TranscriberError → Option Bytes → Recorder → Recorder
  unfolding release
  on_error payload last r =
      if not (is_gap payload.code) && not (is_idle (snapshot_of r).status)
      then rest (cancelled last (reported payload r))
      else reported payload r

-- `on.audio_config`
abbrev pub on_config : AudioConfig → Recorder → Recorder
on_config payload r = show (record (snapshot_of r) { config = some payload }) r
