-- ===== src/Player/Handlers/Tests.antt =====
-- Runs of a player, after ui/player/tests/core.test.ts.
use chanx_kit.Player.Contract.{
  audio_chunk, audio_end, audio_start, ContractToClient, SpeechAudioChunk, SpeechAudioStart,
}
use chanx_kit.Player.Tracks.{Player, PlayerOptions, Sound, attach, create_player, Track}
use chanx_kit.Player.Handlers.{close, on, opened, play, play_all}
use chanx_kit.Player.Handlers.Leaks.{first_samples, speaker-play_all}
use chanx_kit.Player.Playback.{write}
use chanx_kit.Player.Handlers.Pending.{opened-play_all, waiting}
use chanx_kit.Player.Handlers.Timeline.{IsPlaced}
use chanx_kit.Player.Handlers.Rejoin.{chunk_message, play_all_twice, start_message}
use chanx_kit.Player.Handlers.Runs.{
  received, heard, speaker_opened, Event, after_all, after_all-IsPlaced,
}
use chanx_kit.Prelude.{false, true, map, some, List, [], refl, ℕ, ◌==◌, ◌∷◌, ◌≡◌, ◌++◌, none}

-- Four samples in each chunk, and no resampling.
abbrev four : Sound
four = record {
  Sample = ℕ;
  Resampler = Unit;
  decode = λ text channels. 1 ∷ 2 ∷ 3 ∷ 4 ∷ [];
  create_resampler = λ from to. tt;
  resample = λ r samples. (samples, tt);
}

abbrev defaults : PlayerOptions
defaults = record { prebuffer_ms = 150; mark_every_ms = 0 }

abbrev start : ContractToClient
start = audio_start (record {
  payload = record {
    sample_rate = some 4000;
    channels = some 1;
    utterance_id = "u";
    text = "hello";
  };
})

abbrev chunk : ℕ → ContractToClient
chunk index =
    audio_chunk (record { payload = record { utterance_id = "u"; index = index; data_value = "" } })

abbrev end : ContractToClient
end = audio_end (record { payload = record { utterance_id = "u"; duration_ms = 2 } })

abbrev new : Player four
new = attach 1 (create_player defaults)

-- The audio is written once though it is replayed, and is reported when it has been heard.
abbrev replayed : Player four
replayed =
    play_all 10 (start ∷ chunk 0 ∷ start ∷ chunk 0 ∷ chunk 1 ∷ end ∷ []) (opened 10 4000 false new)

replayed_written : replayed.written ≡ 8
unfolding play_all opened on play ◌==◌
replayed_written = refl

opened-play_all_example :
    opened 10 4000 false (play_all 10 (start ∷ chunk 0 ∷ end ∷ []) (waiting new))
    ≡ play_all 10 (start ∷ chunk 0 ∷ end ∷ []) (opened 10 4000 false (waiting new))
opened-play_all_example =
    opened-play_all 10 4000 false (start ∷ chunk 0 ∷ end ∷ []) new (refl, (refl, (refl, tt)))

abbrev chunk_payload : ℕ → SpeechAudioChunk
chunk_payload index = record { utterance_id = "u"; index = index; data_value = "" }

abbrev start_payload : SpeechAudioStart
start_payload = record {
  sample_rate = some 4000;
  channels = some 1;
  utterance_id = "u";
  text = "hello";
}

-- A player whose speaker is open.
abbrev open_player : Player four
open_player = record new { speaker = some (record { sample_rate = 4000; posted = [] }) }

play_all_twice_example :
    play_all 10
      ((start_message start_payload ∷ map chunk_message (chunk_payload 0 ∷ chunk_payload 1 ∷ []))
        ++ end ∷ [])
      (play_all 10
        (start_message start_payload ∷ map chunk_message (chunk_payload 0 ∷ chunk_payload 1 ∷ []))
        open_player)
    ≡ play_all 10
        ((start_message start_payload ∷ map chunk_message (chunk_payload 0 ∷ chunk_payload 1 ∷ []))
          ++ end ∷ [])
        open_player
play_all_twice_example =
    play_all_twice 10 start_payload (chunk_payload 0 ∷ chunk_payload 1 ∷ []) (end ∷ [])
      (record { sample_rate = 4000; posted = [] }) open_player refl (refl, (refl, tt))

abbrev events : List Event
events =
    received 1 start
    ∷ speaker_opened 2 4000 false
    ∷ received 3 (chunk 0)
    ∷ received 3 end
    ∷ heard 4 4
    ∷ []

after_all-IsPlaced_example : IsPlaced (after_all events (create_player {sound = four} defaults))
after_all-IsPlaced_example = after_all-IsPlaced four events defaults

-- An utterance of eight samples that has ended.
abbrev ended : Track four
ended = record {
  id = "u";
  text = "hello";
  resampler = none;
  channels = 1;
  last_index = some 1;
  start = 0;
  length = 8;
  ended = true;
  duration_ms = some 2;
  last_mark_ms = none;
  last_mark_at = 0;
}

abbrev ending : Player four
ending = record open_player { tracks = ended ∷ []; written = 8 }

-- A player whose speaker is being opened.
abbrev opening_player : Player four
opening_player = play_all 10 (start ∷ []) new

speaker-play_all_example :
    (play_all 30
      (audio_start (record { payload = start_payload })
        ∷ audio_chunk (record { payload = chunk_payload 0 })
        ∷ [])
      (opened 20 4000 false (close 15 opening_player))).speaker
    ≡ some (record {
      sample_rate = 4000;
      posted = write (first_samples four 4000 start_payload (chunk_payload 0)) ∷ [];
    })
unfolding play_all on
speaker-play_all_example =
    speaker-play_all 15 20 30 4000 false opening_player start_payload (chunk_payload 0) refl refl
      refl
