-- ===== src/VoiceAgent.antt =====
-- The voice agent of ui/voice-agent/core.ts: `connectVoiceAgent` puts a transcriber, a player and a thread
-- together, and adds the status, the local barge-in and the controls. The three topics are independent.
pub mod BargeIn
pub mod Runs
pub mod Controls
mod Tests
use chanx_kit.AgUi.Connect as Thread
use chanx_kit.AgUi.Thread as AgentThread
use chanx_kit.Audio.Chunker.{Bytes}
use chanx_kit.Player.Connect as Voice
use chanx_kit.Player.Tracks.{PlayerOptions, PlayerStatus, Sound}
use chanx_kit.Player.Tracks as Tracks
use chanx_kit.Transcriber.Attempts.{RecorderOptions, is_idle}
use chanx_kit.Transcriber.Attempts as Attempts
use chanx_kit.Transcriber.Connect as Ears
use chanx_kit.Transcriber.Utterances.{TranscriptMessage, default_limit, on}
use chanx_kit.Prelude.{
  some, none, true, false, Bool, Option, String, if◌then◌else◌, not, or_else, ℕ, ◌&&◌,
}

pub data VoiceStatus : Type 0 where
  idle listening thinking speaking : VoiceStatus

-- `voiceStatus`
abbrev pub voice_status : Bool → Bool → Bool → VoiceStatus
voice_status recording running playing =
    if playing
    then speaking
    else if running
    then thinking
    else if recording
    then listening
    else idle

abbrev pub is_playing : PlayerStatus → Bool
is_playing PlayerStatus.playing = true
is_playing PlayerStatus.idle = false

pub record VoiceAgent (sound : Sound) : Type 0 where
  pub barge_in : Bool
  pub was_speaking : Bool
  pub ears : Ears.Connected
  pub voice : Voice.Connected sound
  pub thread : Thread.Connected

module _ {sound : Sound} where
  -- `param` is the `thread_id` of the thread's topic.
  abbrev pub connect_voice_agent :
      Option Bool → Option String → RecorderOptions → PlayerOptions → VoiceAgent sound
  connect_voice_agent barge_in param recorder player = record {
    barge_in = or_else barge_in true;
    was_speaking = false;
    ears = Ears.connect_transcriber default_limit recorder;
    voice = Voice.connect_player player;
    thread = Thread.connect_agent_thread none param;
  }

  abbrev pub speaks : VoiceAgent sound → Bool
  speaks v = v.ears.transcript.snapshot.speaking

  abbrev pub plays : VoiceAgent sound → Bool
  plays v = is_playing (Tracks.snapshot_of v.voice.player).status

  -- The function that `ears.transcript.subscribe` is given.
  unfoldable pub listen : ℕ → VoiceAgent sound → VoiceAgent sound
  listen now v = record v {
    was_speaking = speaks v;
    voice =
        if v.barge_in && speaks v && not v.was_speaking && plays v
        then Voice.silence now v.voice
        else v.voice;
  }

  -- A message of the transcript: the transcript publishes, and the function is called.
  unfoldable pub hear : ℕ → TranscriptMessage → VoiceAgent sound → VoiceAgent sound
  unfolding listen
  hear now message v =
      listen now (record v {
        ears = record v.ears { transcript = on v.ears.limit message v.ears.transcript };
      })

  unfoldable pub status : VoiceAgent sound → VoiceStatus
  status v =
      voice_status (not (is_idle (Attempts.snapshot_of v.ears.recorder).status))
        (AgentThread.snapshot_of v.thread.thread).running (plays v)

  -- `talk`: the speaker is asked for.
  abbrev pub talk : VoiceAgent sound → VoiceAgent sound
  talk v = record v { voice = Voice.unlock v.voice }

  -- The rest of `talk`: `voice.unlock()` has failed, or the speaker is there, suspended or not.
  unfoldable pub unlocking : Option Bool → VoiceAgent sound → VoiceAgent sound
  unlocking none v = v
  unlocking (some suspended) v = record v {
    voice = Voice.unlocking suspended v.voice;
    ears = Ears.start_recording v.ears;
  }

  unfoldable pub interrupt : ℕ → VoiceAgent sound → VoiceAgent sound
  interrupt now v = record v {
    voice = Voice.stop (Voice.silence now v.voice);
    thread = Thread.cancel v.thread;
  }

  abbrev pub start : VoiceAgent sound → VoiceAgent sound
  start v = record v {
    ears = Ears.start v.ears;
    voice = Voice.start v.voice;
    thread = Thread.start v.thread;
  }

module _ {sound : Sound} (to_base64 : Bytes → String) where
  -- `last` is the chunk that the microphone still holds.
  unfoldable pub mute : Option Bytes → VoiceAgent sound → VoiceAgent sound
  mute last v = record v { ears = Ears.stop to_base64 last v.ears }

  unfoldable pub close : Option Bytes → ℕ → VoiceAgent sound → VoiceAgent sound
  close last now v = record v {
    ears = Ears.close to_base64 last v.ears;
    voice = Voice.close now v.voice;
    thread = Thread.stop v.thread;
  }
