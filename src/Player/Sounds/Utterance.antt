-- ===== src/Player/Sounds/Utterance.antt =====
-- What is written to the speaker for one utterance, whatever decodes and resamples it.
use chanx_kit.Player.Contract.{SpeechAudioStart, SpeechAudioChunk}
use chanx_kit.Player.Tracks.{Player, Sound, Speaker, Track, track_of, post_to, id_of}
use chanx_kit.Player.Handlers.{
  grown, is_played, play_samples, change_track, play_all, play_chunk, play_with, new_track,
  start_track,
}
use chanx_kit.Player.Playback.{write, Message}
use mathlib.Core.Path.{subst}
use chanx_kit.Player.Handlers.Rejoin.{
  IsOf, chunk_message, on-chunk_message, plays, on-start_message, start_message,
}
use chanx_kit.Player.Handlers.Replay.{track_of-play_samples}
use chanx_kit.Prelude.{
  none, false, some, none, false, List, Option, String, [], length, ℕ, ◌++◌, ◌∷◌, ◌≡◌, All, ap,
  if_false, map, refl, sym, ◌+◌, ◌∙◌, ==_iff, append-nil, append_assoc, arith, has_key, or_else,
}

module _ (sound : Sound) where
  -- The messages for chunks that are decoded and resampled in turn.
  abbrev pub writes : ℕ → sound.Resampler → List SpeechAudioChunk → List (Message (sound.Sample))
  writes channels r [] = []
  writes channels r (c ∷ cs) =
      let (samples, r') = sound.resample r (sound.decode c.data_value channels) in
      write samples ∷ writes channels r' cs

-- Each chunk has a larger number than the one before it.
abbrev pub IsRising : Option ℕ → List SpeechAudioChunk → Type 0
IsRising last [] = Unit
IsRising last (c ∷ cs) = (is_played c.index last ≡ false) × IsRising (some c.index) cs

module _ {sound : Sound} where
  -- The utterance u is on the timeline of the open speaker s.
  pub record Sounds (u : String) (s : Speaker sound) (t : Track sound) (r : sound.Resampler)
      (p : Player sound) : Type 0 where
    pub is_open : p.speaker ≡ some s
    pub is_track : track_of u p.tracks ≡ some t
    pub resampler : t.resampler ≡ some r

  play_samples-Sounds :
      (c : SpeechAudioChunk) (s : Speaker sound) (t : Track sound)
      (out : List (sound.Sample) × sound.Resampler) (p : Player sound)
      → p.speaker ≡ some s
      → track_of c.utterance_id p.tracks ≡ some t
      → Sounds c.utterance_id
          (record s { posted = s.posted ++ write out.0 ∷ [] })
          (grown c.index (length out.0) out.1 t)
          out.1
          (play_samples c t out p)
  play_samples-Sounds c s t out p h k = record {
    is_open =
        ap
          (λ o.
            (post_to o (write out.0) (record p {
              tracks = change_track c.utterance_id (grown c.index (length out.0) out.1) p.tracks;
              written = p.written + length out.0;
            })).speaker)
          h;
    is_track = track_of-play_samples c t out p k;
    resampler = refl;
  }

  play_with_fresh :
      (c : SpeechAudioChunk) (t : Track sound) (r : sound.Resampler) (p : Player sound)
      → t.resampler ≡ some r
      → is_played c.index t.last_index ≡ false
      → play_with c t t.resampler p
        ≡ play_samples c t (sound.resample r (sound.decode c.data_value t.channels)) p
  play_with_fresh c t r p h k =
      ap (λ o. play_with c t o p) h ∙ if_false (is_played c.index t.last_index) _ _ k

  plays_fresh :
      (c : SpeechAudioChunk) (s : Speaker sound) (t : Track sound) (r : sound.Resampler)
      (p : Player sound)
      → Sounds c.utterance_id s t r p
      → is_played c.index t.last_index ≡ false
      → plays c p ≡ play_samples c t (sound.resample r (sound.decode c.data_value t.channels)) p
  plays_fresh c s t r p h k =
      ap (λ o. play_chunk c o p) h.is_track ∙ play_with_fresh c t r p h.resampler k

  -- Chunks in order add their writes to what has been posted.
  pub posted-play_all :
      (now : ℕ) (u : String) (cs : List SpeechAudioChunk) (s : Speaker sound) (t : Track sound)
      (r : sound.Resampler) (p : Player sound)
      → All (IsOf u) cs
      → IsRising t.last_index cs
      → Sounds u s t r p
      → (play_all now (map chunk_message cs) p).speaker
        ≡ some (record s { posted = s.posted ++ writes sound t.channels r cs })
  unfolding play_all
  posted-play_all now u [] s t r p a i h =
      h.is_open ∙ ap (λ l. some (record s { posted = l })) (sym (append-nil s.posted))
  posted-play_all now u (c ∷ cs) s t r p a i h =
      let out = sound.resample r (sound.decode c.data_value t.channels) in
      let s' : Speaker sound = record s { posted = s.posted ++ write out.0 ∷ [] } in
      let h' : Sounds c.utterance_id s t r p = subst (λ v. Sounds v s t r p) (sym a.0) h in
      let next = play_samples c t out p in
      let k =
        subst (λ v. Sounds v s' (grown c.index (length out.0) out.1 t) out.1 next) a.0
          (play_samples-Sounds c s t out p h'.is_open h'.is_track) in
      let ih =
        posted-play_all now u cs s' (grown c.index (length out.0) out.1 t) out.1 next a.1 i.1 k in
      ap (λ q. (play_all now (map chunk_message cs) q).speaker)
        (on-chunk_message now c s p h.is_open ∙ plays_fresh c s t r p h' i.0)
      ∙ ih
      ∙ ap (λ l. some (record s { posted = l }))
          (append_assoc s.posted (write out.0 ∷ []) (writes sound t.channels out.1 cs))

  track_of-snoc :
      (u : String) (tracks : List (Track sound)) (t : Track sound)
      → has_key id_of u tracks ≡ false
      → t.id ≡ u
      → track_of u (tracks ++ t ∷ []) ≡ some t
  track_of-snoc u [] t h e = ground (arith, ==_iff t.id u)
  track_of-snoc u (q ∷ tracks) t h e = ground (arith, track_of-snoc u tracks t)

  start_track-Sounds :
      (payload : SpeechAudioStart) (s : Speaker sound) (p : Player sound)
      → p.speaker ≡ some s
      → has_key id_of payload.utterance_id p.tracks ≡ false
      → Sounds payload.utterance_id s
          (new_track payload s p)
          (sound.create_resampler (or_else payload.sample_rate 24000) s.sample_rate)
          (start_track payload s p)
  start_track-Sounds payload s p h k =
      rw (start_track, k)
        (record {
          is_open = h;
          is_track = track_of-snoc payload.utterance_id p.tracks (new_track payload s p) k refl;
          resampler = refl;
        })

  -- The whole of an utterance adds its writes, and nothing else, to what has been posted.
  pub posted_utterance :
      (now : ℕ) (payload : SpeechAudioStart) (cs : List SpeechAudioChunk) (s : Speaker sound)
      (p : Player sound)
      → p.speaker ≡ some s
      → has_key id_of payload.utterance_id p.tracks ≡ false
      → All (IsOf payload.utterance_id) cs
      → IsRising none cs
      → (play_all now (start_message payload ∷ map chunk_message cs) p).speaker
        ≡ some (record s {
          posted =
              s.posted
              ++ writes sound
                  (or_else payload.channels 1)
                  (sound.create_resampler (or_else payload.sample_rate 24000) s.sample_rate)
                  cs;
        })
  unfolding play_all
  posted_utterance now payload cs s p h k a i =
      ap (λ q. (play_all now (map chunk_message cs) q).speaker) (on-start_message now payload s p h)
      ∙ posted-play_all now payload.utterance_id cs s (new_track payload s p) _
          (start_track payload s p) a i (start_track-Sounds payload s p h k)
