-- ===== src/Player/Handlers/Placement.antt =====
-- What the handlers of a message do to the timeline.
use chanx_kit.Player.Contract.{SpeechAudioStart, SpeechAudioChunk, SpeechAudioEnd}
use chanx_kit.Player.Playback.{Message, drain}
use chanx_kit.Player.Tracks.{Player, Sound, Speaker, Track, id_of, post_to, snapshot_of}
use chanx_kit.Player.Handlers.{
  change_track, drop_all, drop_empty, end_track, finished, grown, is_played, new_track, play_chunk,
  play_samples, play_with, show_duration, show_if_idle, start_track,
}
use chanx_kit.Player.Handlers.Timeline.{
  All-change, Distinct-change, IsBefore, IsPlaced, post_to-IsPlaced,
}
use chanx_kit.Prelude.{
  some, none, inl, inr, [], All-append, All-filter, Bool-cases, Distinct-filter, Distinct-snoc,
  List, Option, arith, eqb, has_key, if_both, length, opt_eq, refl, without, ℕ, ◌+◌, ◌∷◌, ◌≡◌,
}

module _ {sound : Sound} where
  pub post_to-tracks :
      (o : Option (Speaker sound)) (m : Message (sound.Sample)) (p : Player sound)
      → (post_to o m p).tracks ≡ p.tracks
  post_to-tracks none m p = refl
  post_to-tracks (some s) m p = refl

  pub drop_all-IsPlaced : (now : ℕ) (p : Player sound) → IsPlaced (drop_all now p)
  unfolding drop_all
  drop_all-IsPlaced now p = rw (post_to-tracks p.speaker) (tt, tt)

  pub start_track-IsPlaced :
      (payload : SpeechAudioStart) (s : Speaker sound) (p : Player sound)
      → IsPlaced p
      → IsPlaced (start_track payload s p)
  start_track-IsPlaced payload s p h =
      elim (Bool-cases (has_key id_of payload.utterance_id p.tracks)) [
        | inl e ↦ rw (start_track, e) h
        | inr e ↦
            rw (start_track, e)
              (
                All-append (IsBefore p.written) p.tracks (new_track payload s p ∷ []) h.0
                    (omega arith, tt),
                Distinct-snoc id_of p.tracks (new_track payload s p) h.1 e,
              )
      ]

  play_samples-IsPlaced :
      (payload : SpeechAudioChunk) (t : Track sound) (out : List (sound.Sample) × sound.Resampler)
      (p : Player sound)
      → IsPlaced p
      → IsPlaced (play_samples payload t out p)
  play_samples-IsPlaced payload t out p h =
      let n = length out.0 in
      let change = grown payload.index n out.1 in
      post_to-IsPlaced p.speaker _
        (record p {
          tracks = change_track payload.utterance_id change p.tracks;
          written = p.written + n;
        })
        (
          All-change (IsBefore p.written) (IsBefore (p.written + n)) payload.utterance_id change
              p.tracks (λ q l. omega arith) (λ q l. omega arith) h.0,
          Distinct-change payload.utterance_id change p.tracks (λ q. refl) h.1,
        )

  play_with-IsPlaced :
      (payload : SpeechAudioChunk) (t : Track sound) (r : Option (sound.Resampler))
      (p : Player sound)
      → IsPlaced p
      → IsPlaced (play_with payload t r p)
  play_with-IsPlaced payload t none p h = h
  play_with-IsPlaced payload t (some r) p h =
      if_both IsPlaced (is_played payload.index t.last_index) h
        (play_samples-IsPlaced payload t _ p h)

  pub play_chunk-IsPlaced :
      (payload : SpeechAudioChunk) (o : Option (Track sound)) (p : Player sound)
      → IsPlaced p
      → IsPlaced (play_chunk payload o p)
  play_chunk-IsPlaced payload none p h = h
  play_chunk-IsPlaced payload (some t) p h = play_with-IsPlaced payload t t.resampler p h

  show_if_idle-IsPlaced :
      (tracks : List (Track sound)) (p : Player sound)
      → IsPlaced p
      → IsPlaced (show_if_idle tracks p)
  show_if_idle-IsPlaced [] p h = h
  show_if_idle-IsPlaced (t ∷ tracks) p h = h

  drop_empty-IsPlaced :
      (now : ℕ) (t : Track sound) (p : Player sound) → IsPlaced p → IsPlaced (drop_empty now t p)
  drop_empty-IsPlaced now t p h =
      show_if_idle-IsPlaced (without id_of t.id p.tracks) _
        (All-filter (IsBefore p.written) _ p.tracks h.0, Distinct-filter id_of _ p.tracks h.1)

  show_duration-IsPlaced :
      (payload : SpeechAudioEnd) (p : Player sound)
      → IsPlaced p
      → IsPlaced (show_duration payload p)
  show_duration-IsPlaced payload p h =
      if_both IsPlaced (opt_eq (snapshot_of p).utterance_id (some payload.utterance_id)) h h

  pub end_track-IsPlaced :
      (now : ℕ) (payload : SpeechAudioEnd) (o : Option (Track sound)) (p : Player sound)
      → IsPlaced p
      → IsPlaced (end_track now payload o p)
  end_track-IsPlaced now payload none p h = h
  end_track-IsPlaced now payload (some t) p h =
      let finish = finished payload in
      let changed = record p { tracks = change_track payload.utterance_id finish p.tracks } in
      let c : IsPlaced changed = (
        All-change (IsBefore p.written) (IsBefore p.written) payload.utterance_id finish p.tracks
            (λ q l. l) (λ q l. l) h.0,
        Distinct-change payload.utterance_id finish p.tracks (λ q. refl) h.1,
      ) in
      let d =
        post_to-IsPlaced (show_duration payload changed).speaker drain _
          (show_duration-IsPlaced payload changed c) in
      if_both IsPlaced (eqb t.length 0) (drop_empty-IsPlaced now (finish t) _ d) d
