-- ===== src/Player/Speaker/Tests.antt =====
-- Runs of the speaker. A sample is a number, and 0 is silence.
use chanx_kit.Player.Playback.{create as create_playback, Message, fill, on_message, process, round}
use chanx_kit.Player.Playback.Stream.{block, message, Event, after, heard_all}
use chanx_kit.Player.Speaker.{
  Answers, Devices, OpenSpeaker, close, on_played, open_speaker, output, post,
}
use chanx_kit.Player.Speaker.Prebuffer.{heard_all-open_speaker}
use chanx_kit.Prelude.{some, none, true, false, List, [], arith, refl, ℕ, ◌++◌, ◌∷◌, ◌≡◌}

abbrev answers : Answers
answers = record {
  owned = true;
  loaded = true;
  connected = true;
  suspended = true;
  context_rate = 1000;
}

abbrev devices : Devices
devices = record { context = true; object_url = false; node = true }

abbrev speaker : OpenSpeaker ℕ
speaker = record {
  sample_rate = 1000;
  worklet = create_playback 3;
  listeners = [];
  told = [];
  suspended = true;
  devices = devices;
}

opens : open_speaker {A = ℕ} 3 answers ≡ (some speaker, devices)
unfolding open_speaker
opens = refl

-- Where the worklet does not load, nothing stays open.
refused :
    open_speaker {A = ℕ} 3 (record answers { loaded = false })
    ≡ (none, record { context = false; object_url = false; node = false })
unfolding open_speaker
refused = refl

closed : (close speaker).devices ≡ record { context = false; object_url = false; node = false }
unfolding close
closed = refl

-- A listener that is added twice is told once.
told : (output 0 1024 (on_played 5 (on_played 5 speaker))).told ≡ (5, 0) ∷ []
unfolding output on_played process fill
told = refl

abbrev early : List (Event {A = ℕ} 0)
early = message (Message.write (7 ∷ [])) ∷ block 2 ∷ message (Message.write (8 ∷ [])) ∷ block 2 ∷ []

heard_all-open_speaker_example : heard_all 0 early speaker.worklet ≡ []
heard_all-open_speaker_example =
    heard_all-open_speaker 0 3 answers speaker devices early opens (tt, (tt, (tt, (tt, tt))))
      (omega arith)

-- One sample more, and it plays.
plays :
    heard_all 0 (early ++ message (Message.write (9 ∷ [])) ∷ block 2 ∷ []) speaker.worklet
    ≡ 7 ∷ 8 ∷ []
unfolding heard_all on_message process fill round after post
plays = refl
