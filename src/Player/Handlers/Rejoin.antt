-- ===== src/Player/Handlers/Rejoin.antt =====
-- The replay of an utterance, message by message.
use chanx_kit.Player.Contract.{
  audio_chunk, audio_start, ContractToClient, SpeechAudioStart, SpeechAudioChunk,
}
use chanx_kit.Player.Tracks.{track_of, post_to, id_of, Player, Sound, Speaker, Track}
use chanx_kit.Player.Handlers.{
  play_chunk, play_with, play_samples, start_track, change_track, is_played, on, play_all,
  with_speaker, new_track, grown, play,
}
use chanx_kit.Player.Playback.{write}
use chanx_kit.Player.Handlers.Pending.{play_all-append}
use chanx_kit.Player.Handlers.Placement.{post_to-tracks}
use chanx_kit.Player.Handlers.Timeline.{has_key-change}
use chanx_kit.Player.Handlers.Replay.{IsSettled, kept_lem, settled_lem, settles_lem}
use mathlib.Core.Path.{subst}
use chanx_kit.Prelude.{
  some, none, true, inl, inr, ==_refl, All, Bool-cases, List, Option, String, [], ap, arith,
  has_key, has_key-snoc, if_both, if_true, length, map, refl, sym, ℕ, ◌++◌, ◌+◌, ◌∙◌, ◌∷◌, ◌≡◌,
}

abbrev pub chunk_message : SpeechAudioChunk → ContractToClient
chunk_message c = audio_chunk (record { payload = c })

abbrev pub start_message : SpeechAudioStart → ContractToClient
start_message payload = audio_start (record { payload = payload })

abbrev pub IsOf : String → SpeechAudioChunk → Type 0
IsOf u c = c.utterance_id ≡ u

module _ {sound : Sound} where
  abbrev pub plays : SpeechAudioChunk → Player sound → Player sound
  plays c p = play_chunk c (track_of c.utterance_id p.tracks) p

  -- The speaker is open and the utterance has started.
  record HasStarted (u : String) (p : Player sound) : Type 0 where
    speaker : Speaker sound
    is_open : p.speaker ≡ some speaker
    started : has_key id_of u p.tracks ≡ true

  play_samples-HasStarted :
      (u : String) (c : SpeechAudioChunk) (t : Track sound)
      (out : List (sound.Sample) × sound.Resampler) (p : Player sound)
      → HasStarted u p
      → HasStarted u (play_samples c t out p)
  play_samples-HasStarted u c t out p h = record {
    speaker = record (h.speaker) { posted = (h.speaker).posted ++ write out.0 ∷ [] };
    is_open =
        ap
          (λ o.
            (post_to o (write out.0) (record p {
              tracks = change_track c.utterance_id (grown c.index (length out.0) out.1) p.tracks;
              written = p.written + length out.0;
            })).speaker)
          h.is_open
        ∙ refl;
    started =
        ap (has_key id_of u) (post_to-tracks p.speaker (write out.0) _)
        ∙ has_key-change u c.utterance_id (grown c.index (length out.0) out.1) p.tracks (λ q. refl)
        ∙ h.started;
  }

  play_with-HasStarted :
      (u : String) (c : SpeechAudioChunk) (t : Track sound) (r : Option (sound.Resampler))
      (p : Player sound)
      → HasStarted u p
      → HasStarted u (play_with c t r p)
  play_with-HasStarted u c t none p h = h
  play_with-HasStarted u c t (some r) p h =
      if_both (HasStarted u) (is_played c.index t.last_index) h
        (play_samples-HasStarted u c t _ p h)

  play_chunk-HasStarted :
      (u : String) (c : SpeechAudioChunk) (o : Option (Track sound)) (p : Player sound)
      → HasStarted u p
      → HasStarted u (play_chunk c o p)
  play_chunk-HasStarted u c none p h = h
  play_chunk-HasStarted u c (some t) p h = play_with-HasStarted u c t t.resampler p h

  pub on-chunk_message :
      (now : ℕ) (c : SpeechAudioChunk) (s : Speaker sound) (p : Player sound)
      → p.speaker ≡ some s
      → on now (chunk_message c) p ≡ plays c p
  unfolding on play
  on-chunk_message now c s p h = ap (λ o. with_speaker now (chunk_message c) o p) h

  pub on-start_message :
      (now : ℕ) (payload : SpeechAudioStart) (s : Speaker sound) (p : Player sound)
      → p.speaker ≡ some s
      → on now (start_message payload) p ≡ start_track payload s p
  unfolding on play
  on-start_message now payload s p h = ap (λ o. with_speaker now (start_message payload) o p) h

  start_track-HasStarted :
      (payload : SpeechAudioStart) (s : Speaker sound) (p : Player sound)
      → p.speaker ≡ some s
      → HasStarted payload.utterance_id (start_track payload s p)
  start_track-HasStarted payload s p h =
      elim (Bool-cases (has_key id_of payload.utterance_id p.tracks)) [
        | inl e ↦ rw (start_track, e) (record { speaker = s; is_open = h; started = e })
        | inr e ↦
            rw (start_track, e)
              (record {
                speaker = s;
                is_open = h;
                started =
                    has_key-snoc id_of payload.utterance_id p.tracks (new_track payload s p)
                    ∙ ground (arith, ==_refl payload.utterance_id);
              })
      ]

  -- What would not be played again stays so.
  IsSettled-play_all :
      (now : ℕ) (u : String) (index : ℕ) (cs : List SpeechAudioChunk) (p : Player sound)
      → All (IsOf u) cs
      → HasStarted u p
      → IsSettled u index p
      → IsSettled u index (play_all now (map chunk_message cs) p)
  unfolding play_all
  IsSettled-play_all now u index [] p a h s = s
  IsSettled-play_all now u index (c ∷ cs) p a h s =
      subst (λ q. IsSettled u index (play_all now (map chunk_message cs) q))
        (sym (on-chunk_message now c h.speaker p h.is_open))
        (IsSettled-play_all now u index cs (plays c p) a.1 (play_chunk-HasStarted u c _ p h) (
          subst (λ v. IsSettled v index (plays c p)) a.0
            (kept_lem index c p (subst (λ v. IsSettled v index p) (sym a.0) s))))

  -- After the chunks have been played, none of them would be played again.
  All-play_all :
      (now : ℕ) (u : String) (cs : List SpeechAudioChunk) (p : Player sound)
      → All (IsOf u) cs
      → HasStarted u p
      → All (λ c. IsSettled u c.index (play_all now (map chunk_message cs) p)) cs
  unfolding play_all
  All-play_all now u [] p a h = tt
  All-play_all now u (c ∷ cs) p a h =
      let h' = play_chunk-HasStarted u c (track_of c.utterance_id p.tracks) p h in
      let s = subst (λ v. IsSettled v c.index (plays c p)) a.0 (settles_lem c p) in
      subst (λ q. All (λ d. IsSettled u d.index (play_all now (map chunk_message cs) q)) (c ∷ cs))
        (sym (on-chunk_message now c h.speaker p h.is_open))
        (
          IsSettled-play_all now u c.index cs (plays c p) a.1 h' s,
          All-play_all now u cs (plays c p) a.1 h',
        )

  again_lem :
      (now : ℕ) (u : String) (cs : List SpeechAudioChunk) (p : Player sound)
      → All (IsOf u) cs
      → HasStarted u p
      → All (λ c. IsSettled u c.index p) cs
      → play_all now (map chunk_message cs) p ≡ p
  unfolding play_all
  again_lem now u [] p a h s = refl
  again_lem now u (c ∷ cs) p a h s =
      let z : IsSettled c.utterance_id c.index p =
        subst (λ v. IsSettled v c.index p) (sym a.0) s.0 in
      ap (play_all now (map chunk_message cs)) (
        on-chunk_message now c h.speaker p h.is_open
        ∙ settled_lem c (track_of c.utterance_id p.tracks) p z)
      ∙ again_lem now u cs p a.1 h s.1

  started_all :
      (now : ℕ) (u : String) (cs : List SpeechAudioChunk) (p : Player sound)
      → HasStarted u p
      → HasStarted u (play_all now (map chunk_message cs) p)
  unfolding play_all
  started_all now u [] p h = h
  started_all now u (c ∷ cs) p h = started_all now u cs (on now (chunk_message c) p) (
      subst (HasStarted u) (sym (on-chunk_message now c h.speaker p h.is_open))
        (play_chunk-HasStarted u c (track_of c.utterance_id p.tracks) p h))

  start_again :
      (now : ℕ) (payload : SpeechAudioStart) (p : Player sound)
      → HasStarted payload.utterance_id p
      → on now (start_message payload) p ≡ p
  start_again now payload p h =
      on-start_message now payload h.speaker p h.is_open
      ∙ if_true (has_key id_of payload.utterance_id p.tracks) _ _ h.started

  -- The speaker is open, and the start of an utterance and some of its chunks have come, with any
  -- numbers. If they come again, as after a reconnect, and then the rest, the player is as if they had
  -- come once: no sample is written twice, and the utterance is not begun again.
  pub play_all_twice :
      (now : ℕ) (payload : SpeechAudioStart) (cs : List SpeechAudioChunk)
      (rest : List ContractToClient) (s : Speaker sound) (p : Player sound)
      → p.speaker ≡ some s
      → All (IsOf payload.utterance_id) cs
      → play_all now
          ((start_message payload ∷ map chunk_message cs) ++ rest)
          (play_all now (start_message payload ∷ map chunk_message cs) p)
        ≡ play_all now ((start_message payload ∷ map chunk_message cs) ++ rest) p
  unfolding play_all
  play_all_twice now payload cs rest s p e a =
      let run = start_message payload ∷ map chunk_message cs in
      let u = payload.utterance_id in
      let p1 = on now (start_message payload) p in
      let h1 =
        subst (HasStarted u) (sym (on-start_message now payload s p e))
          (start_track-HasStarted payload s p e) in
      let p2 = play_all now (map chunk_message cs) p1 in
      let h2 = started_all now u cs p1 h1 in
      let same : play_all now run p2 ≡ p2 =
        ap (play_all now (map chunk_message cs)) (start_again now payload p2 h2)
        ∙ again_lem now u cs p2 a h2 (All-play_all now u cs p1 a h1) in
      play_all-append now run rest p2
      ∙ ap (play_all now rest) same
      ∙ sym (play_all-append now run rest p)
