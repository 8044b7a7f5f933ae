-- ===== src/Player/Handlers/Replay.antt =====
-- An utterance that is replayed after a reconnect.
use chanx_kit.Player.Contract.{SpeechAudioChunk}
use chanx_kit.Player.Tracks.{track_of, Player, Sound, Track}
use chanx_kit.Player.Handlers.{play_chunk, play_with, play_samples, grown, change_track, is_played}
use chanx_kit.Player.Handlers.Placement.{post_to-tracks}
use mathlib.Core.Path.{subst}
use chanx_kit.Prelude.{
  some, none, true, inl, inr, Bool-cases, List, Option, String, [], arith, length, refl, ℕ, ◌∷◌,
  ◌≡◌, ◌⊎◌, Option-cases, ap, ◌∙◌,
}

module _ {sound : Sound} where
  -- Chunk `index` of the track changes nothing.
  abbrev pub IsSettledTrack : ℕ → Option (Track sound) → Type 0
  IsSettledTrack index none = Unit
  IsSettledTrack index (some t) = (t.resampler ≡ none) ⊎ (is_played index t.last_index ≡ true)

  abbrev pub IsSettled : String → ℕ → Player sound → Type 0
  IsSettled u index p = IsSettledTrack index (track_of u p.tracks)

  track_of-change :
      (u : String) (change : Track sound → Track sound) (tracks : List (Track sound))
      (t : Track sound)
      → ((q : Track sound) → (change q).id ≡ q.id)
      → track_of u tracks ≡ some t
      → track_of u (change_track u change tracks) ≡ some (change t)
  track_of-change u change [] t f h = cc
  track_of-change u change (q ∷ tracks) t f h =
      let e = f q in ground (arith, track_of-change u change tracks t f)

  pub track_of-play_samples :
      (c : SpeechAudioChunk) (t : Track sound) (out : List (sound.Sample) × sound.Resampler)
      (p : Player sound)
      → track_of c.utterance_id p.tracks ≡ some t
      → track_of c.utterance_id (play_samples c t out p).tracks
        ≡ some (grown c.index (length out.0) out.1 t)
  track_of-play_samples c t out p h =
      ap (track_of c.utterance_id) (post_to-tracks p.speaker _ _)
      ∙ track_of-change c.utterance_id (grown c.index (length out.0) out.1) p.tracks t (λ q. refl) h

  IsSettled-play_with :
      (c : SpeechAudioChunk) (t : Track sound) (r : Option (sound.Resampler)) (p : Player sound)
      → track_of c.utterance_id p.tracks ≡ some t
      → t.resampler ≡ r
      → IsSettled c.utterance_id c.index (play_with c t r p)
  IsSettled-play_with c t none p h e = rw h (inl e)
  IsSettled-play_with c t (some r) p h e = elim (Bool-cases (is_played c.index t.last_index)) [
    | inl k ↦ rw (play_with, k, h) (inr k)
    | inr k ↦ rw (play_with, k, track_of-play_samples c t _ p h) (inr (ground arith))
  ]

  kept-play_with :
      (index : ℕ) (c : SpeechAudioChunk) (t : Track sound) (r : Option (sound.Resampler))
      (p : Player sound)
      → track_of c.utterance_id p.tracks ≡ some t
      → t.resampler ≡ r
      → IsSettled c.utterance_id index p
      → IsSettled c.utterance_id index (play_with c t r p)
  kept-play_with index c t none p h e s = s
  kept-play_with index c t (some r) p h e s = elim (Bool-cases (is_played c.index t.last_index)) [
    | inl k ↦ rw (play_with, k) s
    | inr k ↦
        let s' : IsSettledTrack index (some t) = subst (IsSettledTrack index) h s in
        rw (play_with, k, track_of-play_samples c t _ p h)
          (elim s' [ inl z ↦ absurd (ground arith) | inr z ↦ inr (ground arith) ])
  ]

  -- A chunk that comes again is not played again.
  pub settled_lem :
      (c : SpeechAudioChunk) (o : Option (Track sound)) (p : Player sound)
      → IsSettledTrack c.index o
      → play_chunk c o p ≡ p
  settled_lem c none p s = refl
  settled_lem c (some t) p (inl e) = ap (λ r. play_with c t r p) e
  settled_lem c (some t) p (inr e) = played c t t.resampler p e
    where
      played :
          (c : SpeechAudioChunk) (t : Track sound) (r : Option (sound.Resampler)) (p : Player sound)
          → is_played c.index t.last_index ≡ true
          → play_with c t r p ≡ p
      played c t none p e = refl
      played c t (some r) p e = rw e refl

  pub settles_lem :
      (c : SpeechAudioChunk) (p : Player sound)
      → IsSettled c.utterance_id c.index (play_chunk c (track_of c.utterance_id p.tracks) p)
  settles_lem c p = elim (Option-cases (track_of c.utterance_id p.tracks)) [
    | inl e ↦ rw (e, e) tt
    | inr (t, e) ↦ rw e (IsSettled-play_with c t t.resampler p e refl)
  ]

  pub kept_lem :
      (index : ℕ) (c : SpeechAudioChunk) (p : Player sound)
      → IsSettled c.utterance_id index p
      → IsSettled c.utterance_id index (play_chunk c (track_of c.utterance_id p.tracks) p)
  kept_lem index c p s = elim (Option-cases (track_of c.utterance_id p.tracks)) [
    | inl e ↦ rw e s
    | inr (t, e) ↦ rw e (kept-play_with index c t t.resampler p e refl s)
  ]
