-- ===== src/Player/Handlers/Leaks.antt =====
-- A player that is closed while its speaker is being opened.
use chanx_kit.Player.Contract.{audio_chunk, audio_start, SpeechAudioChunk, SpeechAudioStart}
use chanx_kit.Player.Playback.{Message, write}
use chanx_kit.Player.Tracks.{Player, Sound, Speaker, post_to}
use chanx_kit.Player.Handlers.{close, drop_all, on, opened, play, play_all}
use chanx_kit.Prelude.{
  ==_refl, Bool, List, Option, [], none, or_else, refl, some, true, ℕ, ◌++◌, ◌∷◌, ◌≡◌,
}

-- The samples of the first chunk of an utterance.
abbrev pub first_samples :
    (sound : Sound) → ℕ → SpeechAudioStart → SpeechAudioChunk → List (sound.Sample)
first_samples sound sample_rate m k =
    (sound.resample (sound.create_resampler (or_else m.sample_rate 24000) sample_rate)
      (sound.decode k.data_value (or_else m.channels 1))).0

module _ {sound : Sound} where
  post_to-tracks :
      (s : Option (Speaker sound)) (m : Message (sound.Sample)) (p : Player sound)
      → (post_to s m p).tracks ≡ p.tracks
  post_to-tracks none m p = refl
  post_to-tracks (some s) m p = refl

  pub tracks-drop_all : (now : ℕ) (p : Player sound) → (drop_all now p).tracks ≡ []
  unfolding drop_all
  tracks-drop_all now p = post_to-tracks p.speaker Message.clear _

  post_to-pending :
      (s : Option (Speaker sound)) (m : Message (sound.Sample)) (p : Player sound)
      → (post_to s m p).pending ≡ p.pending
  post_to-pending none m p = refl
  post_to-pending (some s) m p = refl

  pub pending-drop_all : (now : ℕ) (p : Player sound) → (drop_all now p).pending ≡ p.pending
  unfolding drop_all
  pending-drop_all now p = post_to-pending p.speaker Message.clear _

  play_first :
      (now : ℕ) (s : Speaker sound) (p : Player sound) (m : SpeechAudioStart) (k : SpeechAudioChunk)
      → p.tracks ≡ []
      → p.speaker ≡ some s
      → k.utterance_id ≡ m.utterance_id
      → (play_all now
          (audio_start (record { payload = m }) ∷ audio_chunk (record { payload = k }) ∷ [])
          p).speaker
        ≡ some
            (record s { posted = s.posted ++ write (first_samples sound s.sample_rate m k) ∷ [] })
  unfolding on play play_all
  play_first now s p m k t e i = rw (t, e, i, ==_refl m.utterance_id) refl

  -- Closing a player while its speaker is being opened does not stop that: once it is done, the closed
  -- player holds an open speaker, and it plays the audio that comes.
  pub speaker-play_all :
      (closed at now sample_rate : ℕ) (suspended : Bool) (p : Player sound) (m : SpeechAudioStart)
      (k : SpeechAudioChunk)
      → p.speaker ≡ none
      → p.opening ≡ true
      → k.utterance_id ≡ m.utterance_id
      → (play_all now
          (audio_start (record { payload = m }) ∷ audio_chunk (record { payload = k }) ∷ [])
          (opened at sample_rate suspended (close closed p))).speaker
        ≡ some (record {
          sample_rate = sample_rate;
          posted = write (first_samples sound sample_rate m k) ∷ [];
        })
  unfolding close opened play_all
  speaker-play_all closed at now sample_rate suspended p m k _ _ i =
      play_first now (record { sample_rate = sample_rate; posted = [] })
        (opened at sample_rate suspended (close closed p)) m k (tracks-drop_all closed p) refl i
