-- ===== src/Player/Connect/Tests.antt =====
-- A connected player that is closed while it plays, after ui/player/core.ts.
use chanx_kit.Controller.{controller_stop, controller_send}
use chanx_kit.Player.Contract.{
  audio_chunk, audio_start, playback_mark, ContractToClient, ContractToServer,
}
use chanx_kit.Player.Tracks.{Sound, PlayerOptions, sweep, mark}
use chanx_kit.Player.Handlers.{on as on_message, play, play_all, opened as open_player}
use chanx_kit.Player.Tracks.{on_played}
use chanx_kit.Player.Connect.{Connected, close, connect_player, opened, played, receive}
use chanx_kit.Player.Connect.Closing.{heard_mark}
use chanx_kit.Player.Connect.Timeline.{AreMarks}
use chanx_kit.Player.Connect.Runs.{
  Act, joined, told, speaker_given, sounded, step, steps, heard_mark-close,
}
use chanx_kit.Prelude.{List, [], arith, false, map, refl, some, ℕ, ◌++◌, ◌==◌, ◌∷◌, ◌≡◌}

-- Four samples in each chunk, and no resampling.
abbrev four : Sound
four = record {
  Sample = ℕ;
  Resampler = Unit;
  decode = λ text channels. 1 ∷ 2 ∷ 3 ∷ 4 ∷ [];
  create_resampler = λ from to. tt;
  resample = λ r samples. (samples, tt);
}

abbrev options : PlayerOptions
options = record { prebuffer_ms = 150; mark_every_ms = 250 }

abbrev begin : ContractToClient
begin = audio_start (record {
  payload = record {
    sample_rate = some 1000;
    channels = some 1;
    utterance_id = "u";
    text = "hello";
  };
})

abbrev chunk : ContractToClient
chunk = audio_chunk (record { payload = record { utterance_id = "u"; index = 0; data_value = "" } })

-- Three of four milliseconds have been heard.
abbrev acts : List Act
acts = joined ∷ told 5 begin ∷ speaker_given 6 1000 false ∷ told 7 chunk ∷ sounded 8 3 ∷ []

abbrev connected : Connected four
connected = steps acts (connect_player options)

mark_of_u : ContractToServer
mark_of_u = playback_mark (record { payload = record { utterance_id = "u"; played_ms = 3 } })

heard_mark-connected : map (heard_mark connected.player) connected.player.tracks ≡ mark_of_u ∷ []
unfolding steps step receive opened played on_message open_player play_all play on_played sweep mark
    ◌==◌ mark_of_u
heard_mark-connected = refl

heard_mark-close_example :
    (marks : List ContractToServer) × AreMarks connected.player connected.player.tracks marks
    × ((close 9 connected).calls
        ≡ connected.calls ++ map controller_send marks ++ controller_stop ∷ [])
unfolding steps step receive opened played on_message open_player play_all play on_played sweep mark
    ◌==◌
heard_mark-close_example = heard_mark-close four 9 acts options (omega arith)
