-- ===== src/VoiceAgent/Tests.antt =====
-- Runs of the barge-in, after ui/voice-agent/tests/core.test.ts.
use chanx_kit.AgUi.Connect as Thread
use chanx_kit.AgUi.Thread as AgentThread
use chanx_kit.AgUi.Thread.{create_agent_thread, AgentThread}
use chanx_kit.Audio.Chunker.{Bytes}
use chanx_kit.Controller.{controller_send}
use chanx_kit.Player.Contract.{audio_start, ContractToClient}
use chanx_kit.Player.Connect.Timeline.{AreMarks}
use chanx_kit.Player.Connect.{opened, receive}
use chanx_kit.Player.Connect.Runs.{step}
use chanx_kit.Player.Handlers.{on as on_player, opened as open_player, play, play_all}
use chanx_kit.VoiceAgent.{unlocking}
use chanx_kit.VoiceAgent.Runs.{after}
use chanx_kit.Player.Contract.{ContractToServer}
use chanx_kit.Player.Connect.Runs.{speaker_given, told}
use chanx_kit.VoiceAgent.Controls.{cancels, interrupt_lem, speak_clear_call}
use chanx_kit.VoiceAgent.Runs.{
  voice-hear_always, Event, after_all, started, talked, thread_moved, unlocked, voice_moved,
}
use chanx_kit.Player.Connect.{silence}
use chanx_kit.Player.Tracks.{PlayerStatus, Sound, snapshot_of, show}
use chanx_kit.Transcriber.Contract.{SpeechStartedMessage}
use chanx_kit.Transcriber.Utterances.{speech_started}
use chanx_kit.VoiceAgent.{
  connect_voice_agent, interrupt, plays, VoiceAgent, VoiceStatus, hear, speaks, status,
}
use chanx_kit.Prelude.{
  List, String, [], arith, false, if◌then◌else◌, map, none, not, refl, some, true, ℕ, ◌&&◌, ◌++◌,
  ◌∷◌, ◌≡◌,
}

abbrev quiet : Sound
quiet = record {
  Sample = ℕ;
  Resampler = Unit;
  decode = λ text channels. [];
  create_resampler = λ from to. tt;
  resample = λ r samples. (samples, tt);
}

-- An agent that speaks, while the user is silent.
abbrev agent : VoiceAgent quiet
agent =
    let v =
      connect_voice_agent {sound = quiet} none (some "t")
        (record { config = none; language = none })
        (record { prebuffer_ms = 150; mark_every_ms = 250 }) in
    let p = v.voice.player in
    record v {
      voice = record v.voice {
        player = show (record (snapshot_of p) { status = PlayerStatus.playing }) p;
      };
    }

abbrev speech : SpeechStartedMessage
speech = record { payload = record { at_ms = 0 } }

agent_status : status agent ≡ VoiceStatus.speaking
unfolding status
agent_status = refl

abbrev encode : Bytes → String
encode [] = ""
encode (b ∷ bytes) = "AA=="

abbrev begin : ContractToClient
begin = audio_start (record {
  payload = record {
    sample_rate = some 1000;
    channels = some 1;
    utterance_id = "u";
    text = "hello";
  };
})

-- A thread with a run.
abbrev running : Thread.Connected
running = record (Thread.connect_agent_thread none (some "t")) {
  thread =
      let t = create_agent_thread "t" in
      AgentThread.show (record (AgentThread.snapshot_of t) { run_id = some "r"; running = true }) t;
}

-- An utterance has begun and a run is in flight when the user interrupts.
abbrev events : List Event
events =
    started
    ∷ talked
    ∷ voice_moved (speaker_given 6 1000 false)
    ∷ unlocked (some false)
    ∷ voice_moved (told 7 begin)
    ∷ thread_moved running
    ∷ []

abbrev busy : VoiceAgent quiet
busy = after_all encode events (
    connect_voice_agent {sound = quiet} none (some "t") (record { config = none; language = none })
      (record { prebuffer_ms = 150; mark_every_ms = 250 }))

interrupt_lem_example :
    ((marks : List ContractToServer) × AreMarks busy.voice.player busy.voice.player.tracks marks
      × ((interrupt 9 busy).voice.calls
          ≡ busy.voice.calls ++ map controller_send marks ++ speak_clear_call ∷ []))
    × ((interrupt 9 busy).thread.calls
        ≡ busy.thread.calls
          ++ map controller_send (cancels (AgentThread.snapshot_of busy.thread.thread).run_id))
    × ((interrupt 9 busy).voice.player.tracks ≡ [])
    × (plays (interrupt 9 busy) ≡ false)
    × ((interrupt 9 busy).voice.player.pending ≡ busy.voice.player.pending)
unfolding after_all after unlocking step opened receive open_player play_all on_player play
interrupt_lem_example =
    interrupt_lem quiet encode events none (some "t") (record { config = none; language = none })
      (record { prebuffer_ms = 150; mark_every_ms = 250 }) 9 (omega arith)

-- The user begins to speak while the utterance plays.
voice-hear_always_example : (hear 9 (speech_started speech) busy).voice ≡ (
    if busy.barge_in && true && not (speaks busy) && plays busy
    then silence 9 busy.voice
    else busy.voice)
voice-hear_always_example =
    voice-hear_always quiet encode events none (some "t")
      (record { config = none; language = none })
      (record { prebuffer_ms = 150; mark_every_ms = 250 }) 9 (speech_started speech)
