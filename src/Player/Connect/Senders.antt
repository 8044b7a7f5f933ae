-- ===== src/Player/Connect/Senders.antt =====
-- A connected player gives its messages to the `send` of its connection, whatever happens.
use chanx_kit.Controller.{own}
use chanx_kit.Player.Tracks.{Player, Sound, Track}
use chanx_kit.Player.Playback.{Message, drain}
use chanx_kit.Player.Handlers.{drop_all, silence as silence_player, close as close_player}
use chanx_kit.Player.Tracks.{Speaker, post_to}
use chanx_kit.Player.Contract.{
  SpeechAudioChunk, SpeechAudioEnd, SpeechAudioStart, ContractToClient, audio_start, audio_chunk,
  audio_end, clear, synthesizer_error,
}
use chanx_kit.Player.Tracks.{snapshot_of, id_of, current_of, on_played, show_played, track_of, post}
use chanx_kit.Player.Handlers.{
  is_played, finished, change_track, on, play, play_all, play_chunk, play_with, start_track,
  end_track, with_speaker, ensure_speaker_of, show_if_idle, opened, show_duration,
}
use chanx_kit.Player.Handlers.Runs.{
  Event, received, heard, speaker_opened, speaker_failed, silenced, closed, after,
}
use chanx_kit.Prelude.{
  Bool-cases, List, Option, [], eqb, has_key, inl, inr, none, opt_eq, some, ℕ, ◌∷◌, ◌≡◌,
}

module _ {sound : Sound} where
  -- No operation but `attach` changes the function that messages are given to.
  abbrev pub IsOwn : Player sound → Type 0
  IsOwn p = p.send ≡ some own

  post_to-IsOwn :
      (s : Option (Speaker sound)) (m : Message (sound.Sample)) (p : Player sound)
      → IsOwn p
      → IsOwn (post_to s m p)
  post_to-IsOwn none m p h = h
  post_to-IsOwn (some s) m p h = h

  play_with-IsOwn :
      (m : SpeechAudioChunk) (t : Track sound) (r : Option (sound.Resampler)) (p : Player sound)
      → IsOwn p
      → IsOwn (play_with m t r p)
  play_with-IsOwn m t none p h = h
  play_with-IsOwn m t (some r) p h = elim (Bool-cases (is_played m.index t.last_index)) [
    | inl e ↦ rw e h
    | inr e ↦ rw e (post_to-IsOwn p.speaker _ _ h)
  ]

  play_chunk-IsOwn :
      (m : SpeechAudioChunk) (o : Option (Track sound)) (p : Player sound)
      → IsOwn p
      → IsOwn (play_chunk m o p)
  play_chunk-IsOwn m none p h = h
  play_chunk-IsOwn m (some t) p h = play_with-IsOwn m t t.resampler p h

  drop_all-IsOwn : (now : ℕ) (p : Player sound) → IsOwn p → IsOwn (drop_all now p)
  unfolding drop_all
  drop_all-IsOwn now p h = post_to-IsOwn p.speaker Message.clear _ h

  show_if_idle-IsOwn :
      (ts : List (Track sound)) (p : Player sound) → IsOwn p → IsOwn (show_if_idle ts p)
  show_if_idle-IsOwn [] p h = h
  show_if_idle-IsOwn (t ∷ ts) p h = h

  show_duration-IsOwn :
      (m : SpeechAudioEnd) (p : Player sound) → IsOwn p → IsOwn (show_duration m p)
  show_duration-IsOwn m p h =
      elim (Bool-cases (opt_eq (snapshot_of p).utterance_id (some m.utterance_id))) [
        | inl e ↦ rw e h
        | inr e ↦ rw e h
      ]

  end_track-IsOwn :
      (now : ℕ) (m : SpeechAudioEnd) (o : Option (Track sound)) (p : Player sound)
      → IsOwn p
      → IsOwn (end_track now m o p)
  end_track-IsOwn now m none p h = h
  end_track-IsOwn now m (some t) p h =
      let q =
        show_duration m (record p { tracks = change_track m.utterance_id (finished m) p.tracks }) in
      let drained : IsOwn (post drain q) =
        post_to-IsOwn q.speaker drain q (show_duration-IsOwn m _ h) in
      elim (Bool-cases (eqb t.length 0)) [
        | inl e ↦ rw e (show_if_idle-IsOwn _ _ drained)
        | inr e ↦ rw e drained
      ]

  start_track-IsOwn :
      (m : SpeechAudioStart) (s : Speaker sound) (p : Player sound)
      → IsOwn p
      → IsOwn (start_track m s p)
  start_track-IsOwn m s p h = elim (Bool-cases (has_key id_of m.utterance_id p.tracks)) [
    | inl e ↦ rw e h
    | inr e ↦ rw e h
  ]

  play-IsOwn :
      (now : ℕ) (s : Speaker sound) (m : ContractToClient) (p : Player sound)
      → IsOwn p
      → IsOwn (play now s m p)
  unfolding play
  play-IsOwn now s (audio_start m) p h = start_track-IsOwn m.payload s p h
  play-IsOwn now s (audio_chunk m) p h =
      play_chunk-IsOwn m.payload (track_of m.payload.utterance_id p.tracks) p h
  play-IsOwn now s (audio_end m) p h =
      end_track-IsOwn now m.payload (track_of m.payload.utterance_id p.tracks) p h
  play-IsOwn now s (clear m) p h = drop_all-IsOwn now p h
  play-IsOwn now s (synthesizer_error m) p h = h

  with_speaker-IsOwn :
      (now : ℕ) (m : ContractToClient) (o : Option (Speaker sound)) (p : Player sound)
      → IsOwn p
      → IsOwn (with_speaker now m o p)
  with_speaker-IsOwn now m none p h = asked p.speaker _ h
    where
      asked :
          (o : Option (Speaker sound)) (p : Player sound) → IsOwn p → IsOwn (ensure_speaker_of o p)
      asked none p h = h
      asked (some s) p h = h
  with_speaker-IsOwn now m (some s) p h = play-IsOwn now s m p h

  pub on-IsOwn : (now : ℕ) (m : ContractToClient) (p : Player sound) → IsOwn p → IsOwn (on now m p)
  unfolding on
  on-IsOwn now (synthesizer_error m) p h = h
  on-IsOwn now m p h = with_speaker-IsOwn now m p.speaker p h

  play_all-IsOwn :
      (now : ℕ) (ms : List ContractToClient) (p : Player sound)
      → IsOwn p
      → IsOwn (play_all now ms p)
  unfolding play_all
  play_all-IsOwn now [] p h = h
  play_all-IsOwn now (m ∷ ms) p h = play_all-IsOwn now ms (on now m p) (on-IsOwn now m p h)

  show_played-IsOwn :
      (o : Option (Track sound)) (p : Player sound) → IsOwn p → IsOwn (show_played o p)
  show_played-IsOwn none p h = h
  show_played-IsOwn (some t) p h = h

  pub after-IsOwn : (e : Event) (p : Player sound) → IsOwn p → IsOwn (after e p)
  unfolding on_played opened silence_player close_player
  after-IsOwn (received now m) p h = on-IsOwn now m p h
  after-IsOwn (heard now total) p h = show_played-IsOwn (current_of p) _ h
  after-IsOwn (speaker_opened now sample_rate suspended) p h = play_all-IsOwn now p.pending _ h
  after-IsOwn (speaker_failed message) p h = h
  after-IsOwn (silenced now) p h = drop_all-IsOwn now p h
  after-IsOwn (closed now) p h = drop_all-IsOwn now p h
