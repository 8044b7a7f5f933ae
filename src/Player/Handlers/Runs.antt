-- ===== src/Player/Handlers/Runs.antt =====
-- All that can happen to a player, in any order.
use chanx_kit.Player.Contract.{
  audio_chunk, audio_end, audio_start, clear, synthesizer_error, ContractToClient,
}
use chanx_kit.Player.Tracks.{
  track_of, Player, PlayerOptions, Sound, Speaker, Track, create_player, current_of, on_played,
  show_played,
}
use chanx_kit.Player.Handlers.{
  close, ensure_speaker_of, on, open_failed, opened, play, play_all, silence, with_speaker,
}
use chanx_kit.Player.Handlers.Placement.{
  drop_all-IsPlaced, end_track-IsPlaced, play_chunk-IsPlaced, start_track-IsPlaced,
}
use chanx_kit.Player.Handlers.Timeline.{IsPlaced, sweep-Distinct, sweep-IsBefore}
use chanx_kit.Prelude.{some, none, [], Bool, List, Option, String, ℕ, ◌∷◌}

-- Each with the time at which it happens.
pub data Event : Type 0 where
  received : ℕ → ContractToClient → Event
  heard : ℕ → ℕ → Event
  speaker_opened : ℕ → ℕ → Bool → Event
  speaker_failed : String → Event
  silenced : ℕ → Event
  closed : ℕ → Event

module _ {sound : Sound} where
  abbrev pub after : Event → Player sound → Player sound
  after (received now m) p = on now m p
  after (heard now total) p = on_played now total p
  after (speaker_opened now sample_rate suspended) p = opened now sample_rate suspended p
  after (speaker_failed message) p = open_failed message p
  after (silenced now) p = silence now p
  after (closed now) p = close now p

  abbrev pub after_all : List Event → Player sound → Player sound
  after_all [] p = p
  after_all (e ∷ es) p = after_all es (after e p)

  play-IsPlaced :
      (now : ℕ) (s : Speaker sound) (m : ContractToClient) (p : Player sound)
      → IsPlaced p
      → IsPlaced (play now s m p)
  unfolding play
  play-IsPlaced now s (audio_start m) p h = start_track-IsPlaced m.payload s p h
  play-IsPlaced now s (audio_chunk m) p h =
      play_chunk-IsPlaced m.payload (track_of m.payload.utterance_id p.tracks) p h
  play-IsPlaced now s (audio_end m) p h =
      end_track-IsPlaced now m.payload (track_of m.payload.utterance_id p.tracks) p h
  play-IsPlaced now s (clear m) p h = drop_all-IsPlaced now p
  play-IsPlaced now s (synthesizer_error m) p h = h

  ensure_speaker_of-IsPlaced :
      (o : Option (Speaker sound)) (p : Player sound)
      → IsPlaced p
      → IsPlaced (ensure_speaker_of o p)
  ensure_speaker_of-IsPlaced none p h = h
  ensure_speaker_of-IsPlaced (some s) p h = h

  with_speaker-IsPlaced :
      (now : ℕ) (m : ContractToClient) (o : Option (Speaker sound)) (p : Player sound)
      → IsPlaced p
      → IsPlaced (with_speaker now m o p)
  with_speaker-IsPlaced now m none p h = ensure_speaker_of-IsPlaced p.speaker _ h
  with_speaker-IsPlaced now m (some s) p h = play-IsPlaced now s m p h

  on-IsPlaced :
      (now : ℕ) (m : ContractToClient) (p : Player sound) → IsPlaced p → IsPlaced (on now m p)
  unfolding on
  on-IsPlaced now (synthesizer_error m) p h = h
  on-IsPlaced now m p h = with_speaker-IsPlaced now m p.speaker p h

  play_all-IsPlaced :
      (now : ℕ) (ms : List ContractToClient) (p : Player sound)
      → IsPlaced p
      → IsPlaced (play_all now ms p)
  unfolding play_all
  play_all-IsPlaced now [] p h = h
  play_all-IsPlaced now (m ∷ ms) p h = play_all-IsPlaced now ms (on now m p) (on-IsPlaced now m p h)

  show_played-IsPlaced :
      (o : Option (Track sound)) (p : Player sound) → IsPlaced p → IsPlaced (show_played o p)
  show_played-IsPlaced none p h = h
  show_played-IsPlaced (some t) p h = h

  after-IsPlaced : (e : Event) (p : Player sound) → IsPlaced p → IsPlaced (after e p)
  unfolding on_played opened silence close
  after-IsPlaced (received now m) p h = on-IsPlaced now m p h
  after-IsPlaced (heard now total) p h = show_played-IsPlaced (current_of p) _ (
    sweep-IsBefore now (record p { played = total }) p.tracks p.written h.0,
    sweep-Distinct now (record p { played = total }) p.tracks h.1,
  )
  after-IsPlaced (speaker_opened now sample_rate suspended) p h =
      play_all-IsPlaced now p.pending _ h
  after-IsPlaced (speaker_failed message) p h = h
  after-IsPlaced (silenced now) p h = drop_all-IsPlaced now p
  after-IsPlaced (closed now) p h = drop_all-IsPlaced now p

  kept-IsPlaced : (es : List Event) (p : Player sound) → IsPlaced p → IsPlaced (after_all es p)
  kept-IsPlaced [] p h = h
  kept-IsPlaced (e ∷ es) p h = kept-IsPlaced es (after e p) (after-IsPlaced e p h)

-- Whatever comes, in any order, replayed or not: every utterance lies within the samples that have
-- been written, and no utterance is on the timeline twice.
pub after_all-IsPlaced :
    (sound : Sound) (es : List Event) (options : PlayerOptions)
    → IsPlaced (after_all es (create_player {sound = sound} options))
after_all-IsPlaced sound es options = kept-IsPlaced es (create_player options) (tt, tt)
