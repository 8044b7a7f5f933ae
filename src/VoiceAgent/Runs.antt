-- ===== src/VoiceAgent/Runs.antt =====
-- All that can happen to a voice agent, in any order. What its recorder and its thread do is left open.
use chanx_kit.AgUi.Connect as Thread
use chanx_kit.Audio.Chunker.{Bytes}
use chanx_kit.Player.Connect as Voice
use chanx_kit.Player.Connect.Runs.{Act, step, step-IsOwn, ended, hushed}
use chanx_kit.Player.Connect.Senders.{IsOwn}
use chanx_kit.Player.Handlers.{ensure_speaker_of}
use chanx_kit.Player.Tracks.{Player, PlayerOptions, Sound, Speaker}
use chanx_kit.Transcriber.Attempts.{Recorder, RecorderOptions}
use chanx_kit.Transcriber.Connect as Ears
use chanx_kit.Transcriber.Utterances.{TranscriptMessage, on}
use chanx_kit.VoiceAgent.{
  VoiceAgent, close, connect_voice_agent, hear, interrupt, listen, mute, plays, speaks, start, talk,
  unlocking,
}
use chanx_kit.VoiceAgent.BargeIn.{IsListening, is_speech, voice-hear}
use chanx_kit.Prelude.{
  Bool, Bool-cases, List, Option, String, [], if◌then◌else◌, inl, inr, none, not, refl, some, ℕ,
  ◌&&◌, ◌∷◌, ◌≡◌,
}

pub data Event : Type 0 where
  heard : ℕ → TranscriptMessage → Event
  recorder_moved : Recorder → Event
  voice_moved : Act → Event
  thread_moved : Thread.Connected → Event
  started talked : Event
  unlocked : Option Bool → Event
  muted : Option Bytes → Event
  interrupted : ℕ → Event
  closed : Option Bytes → ℕ → Event

module _ {sound : Sound} where
  -- The agent knows whether the user was speaking, and its player sends to its topic.
  abbrev pub IsReady : VoiceAgent sound → Type 0
  IsReady v = IsListening v × IsOwn v.voice.player

module _ {sound : Sound} (to_base64 : Bytes → String) where
  unfoldable pub after : Event → VoiceAgent sound → VoiceAgent sound
  unfolding hear step unlocking mute interrupt close
  after (heard now m) v = hear now m v
  after (recorder_moved r) v = record v { ears = Ears.relay r v.ears }
  after (voice_moved act) v = record v { voice = step act v.voice }
  after (thread_moved t) v = record v { thread = t }
  after started v = start v
  after talked v = talk v
  after (unlocked answer) v = unlocking answer v
  after (muted last) v = mute to_base64 last v
  after (interrupted now) v = interrupt now v
  after (closed last now) v = close to_base64 last now v

  unfoldable pub after_all : List Event → VoiceAgent sound → VoiceAgent sound
  unfolding after
  after_all [] v = v
  after_all (e ∷ es) v = after_all es (after e v)

  ensure_speaker_of-IsOwn :
      (o : Option (Speaker sound)) (p : Player sound) → IsOwn p → IsOwn (ensure_speaker_of o p)
  ensure_speaker_of-IsOwn none p h = h
  ensure_speaker_of-IsOwn (some s) p h = h

  silence-IsOwn :
      (now : ℕ) (c : Voice.Connected sound) → IsOwn c.player → IsOwn (Voice.silence now c).player
  unfolding step
  silence-IsOwn now c h = step-IsOwn (hushed now) c h

  listen-IsOwn :
      (now : ℕ) (v : VoiceAgent sound) → IsOwn v.voice.player → IsOwn (listen now v).voice.player
  unfolding listen
  listen-IsOwn now v h =
      elim (Bool-cases (v.barge_in && speaks v && not v.was_speaking && plays v)) [
        | inl e ↦ rw e (silence-IsOwn now v.voice h)
        | inr e ↦ rw e h
      ]

  after-IsReady : (e : Event) (v : VoiceAgent sound) → IsReady v → IsReady (after e v)
  unfolding after hear listen unlocking mute interrupt close Voice.stop Ears.start_recording
      Ears.stop Ears.close step
  after-IsReady (heard now m) v h = (
    refl,
    listen-IsOwn now
        (record v { ears = record v.ears { transcript = on v.ears.limit m v.ears.transcript } })
        h.1,
  )
  after-IsReady (recorder_moved r) v h = h
  after-IsReady (voice_moved act) v h = (h.0, step-IsOwn act v.voice h.1)
  after-IsReady (thread_moved t) v h = h
  after-IsReady started v h = h
  after-IsReady talked v h =
      (h.0, ensure_speaker_of-IsOwn v.voice.player.speaker v.voice.player h.1)
  after-IsReady (unlocked none) v h = h
  after-IsReady (unlocked (some suspended)) v h = h
  after-IsReady (muted last) v h = h
  after-IsReady (interrupted now) v h = (h.0, silence-IsOwn now v.voice h.1)
  after-IsReady (closed last now) v h = (h.0, step-IsOwn (ended now) v.voice h.1)

  kept-IsReady : (es : List Event) (v : VoiceAgent sound) → IsReady v → IsReady (after_all es v)
  unfolding after_all
  kept-IsReady [] v h = h
  kept-IsReady (e ∷ es) v h = kept-IsReady es (after e v) (after-IsReady e v h)

-- In every run, the agent knows whether the user was speaking, and its player sends to its own topic.
pub after_all-IsReady :
    (sound : Sound) (to_base64 : Bytes → String) (es : List Event) (barge_in : Option Bool)
    (param : Option String) (recorder : RecorderOptions) (player : PlayerOptions)
    → IsReady {sound = sound}
        (after_all to_base64 es (connect_voice_agent barge_in param recorder player))
after_all-IsReady sound to_base64 es barge_in param recorder player =
    kept-IsReady to_base64 es (connect_voice_agent {sound = sound} barge_in param recorder player)
      (refl, refl)

-- In every run, a message of the transcript silences the reply only if it is the beginning of speech,
-- barge-in is on, the user was not speaking before, and the reply plays; and then it does.
pub voice-hear_always :
    (sound : Sound) (to_base64 : Bytes → String) (es : List Event) (barge_in : Option Bool)
    (param : Option String) (recorder : RecorderOptions) (player : PlayerOptions) (now : ℕ)
    (m : TranscriptMessage)
    → let v =
        after_all {sound = sound} to_base64 es
          (connect_voice_agent barge_in param recorder player) in
      (hear now m v).voice ≡ (
        if v.barge_in && is_speech m && not (speaks v) && plays v
        then Voice.silence now v.voice
        else v.voice)
voice-hear_always sound to_base64 es barge_in param recorder player now m =
    voice-hear now m
      (after_all {sound = sound} to_base64 es (connect_voice_agent barge_in param recorder player))
      (after_all-IsReady sound to_base64 es barge_in param recorder player).0
