-- ===== src/Player/Handlers/Marks.antt =====
-- The marks of utterances that have been heard to their end.
use mathlib.Core.List.{Memᴰ}
use mathlib.Core.List.Memᴰ
use chanx_kit.Player.Contract.{playback_mark, ContractToServer}
use chanx_kit.Player.Tracks.{
  current_of, show_played, on_played, mark, sweep, is_done, played_of, to_ms, Player, Sender, Sound,
  Speaker, Track,
}
use mathlib.Core.Path.{subst}
use chanx_kit.Prelude.{
  inl, inr, true, false, none, some, List, [], arith, leb→le, min, refl, sym, ℕ, ◌+◌, ◌-◌, ◌∷◌, ◌≡◌,
  All, Bool, Bool-cases, Option, ◌++◌, ◌∙◌, ◌≤◌,
}

module _ {sound : Sound} where
  -- The last mark of a track: all of it has been heard.
  abbrev pub last_mark : ℕ → Sender → Track sound → Sender × ContractToServer
  last_mark sample_rate send t = (
    send,
    playback_mark (record {
      payload = record { utterance_id = t.id; played_ms = to_ms t.length sample_rate };
    }),
  )

  played_of_done :
      (p : Player sound) (s : Speaker sound) (t : Track sound)
      → p.speaker ≡ some s
      → is_done p t ≡ true
      → played_of p t ≡ to_ms t.length s.sample_rate
  played_of_done p s t e d =
      let l : min (p.played - t.start) t.length ≡ t.length =
        ground (arith, leb→le (t.start + t.length) p.played) in
      rw (played_of, e, l) refl

  mark_done :
      (now : ℕ) (p : Player sound) (s : Speaker sound) (send : Sender) (t : Track sound)
      → p.speaker ≡ some s
      → p.send ≡ some send
      → is_done p t ≡ true
      → (mark now (is_done p t) p t).1 ≡ last_mark s.sample_rate send t ∷ []
  unfolding mark
  mark_done now p s send t e f d = rw (d, f, played_of_done p s t e d) refl

  sweep_done :
      (now : ℕ) (p : Player sound) (s : Speaker sound) (send : Sender) (t : Track sound)
      (tracks : List (Track sound))
      → p.speaker ≡ some s
      → p.send ≡ some send
      → is_done p t ≡ true
      → Memᴰ t tracks
      → Memᴰ (last_mark s.sample_rate send t) (sweep now p tracks).1
  unfolding sweep
  sweep_done now p s send t (q ∷ tracks) e f d (Memᴰ.head z) =
      Memᴰ.append_left (sweep now p tracks).1
        (rw (sym z, mark_done now p s send t e f d) (Memᴰ.head refl))
  sweep_done now p s send t (q ∷ tracks) e f d (Memᴰ.tail m) =
      Memᴰ.append_right (mark now (is_done p q) p q).1 (sweep_done now p s send t tracks e f d m)
  sweep_done now p s send t [] e f d m = absurd (Memᴰ.not-nil m)

  is_done-mark :
      (now : ℕ) (force : Bool) (p : Player sound) (t : Track sound)
      → is_done p (mark now force p t).0 ≡ is_done p t
  unfolding mark
  is_done-mark now force p t = ground arith

  sweep_left :
      (now : ℕ) (p : Player sound) (tracks : List (Track sound))
      → All (λ t. is_done p t ≡ false) (sweep now p tracks).0
  unfolding sweep
  sweep_left now p [] = tt
  sweep_left now p (t ∷ tracks) =
      let others = sweep_left now p tracks in
      elim (Bool-cases (is_done p t)) [
        | inl e ↦ rw e others
        | inr e ↦ rw e (is_done-mark now false p t ∙ e, others)
      ]

  show_played-sent : (o : Option (Track sound)) (p : Player sound) → (show_played o p).sent ≡ p.sent
  show_played-sent none p = refl
  show_played-sent (some t) p = refl

  show_played-tracks :
      (o : Option (Track sound)) (p : Player sound) → (show_played o p).tracks ≡ p.tracks
  show_played-tracks none p = refl
  show_played-tracks (some t) p = refl

  -- The speaker is open and marks have a sender. When the speaker reports how much it has played, an
  -- utterance that has ended and lies within that is reported to the server with its whole length,
  -- however soon after its last mark, and no utterance that is over stays.
  pub on_played_done :
      (now total : ℕ) (p : Player sound) (s : Speaker sound) (send : Sender) (t : Track sound)
      → p.speaker ≡ some s
      → p.send ≡ some send
      → Memᴰ t p.tracks
      → t.ended ≡ true
      → t.start + t.length ≤ total
      → Memᴰ (last_mark s.sample_rate send t) (on_played now total p).sent
        × All (λ q. is_done (record p { played = total }) q ≡ false) (on_played now total p).tracks
  unfolding on_played
  on_played_done now total p s send t e f m d l =
      let p' = record p { played = total } in
      let done : is_done p' t ≡ true = ground arith in
      let swept = sweep now p' p.tracks in
      let next = record p' { tracks = swept.0; sent = p.sent ++ swept.1 } in
      (
        subst (Memᴰ (last_mark s.sample_rate send t)) (sym (show_played-sent (current_of p) next))
            (Memᴰ.append_right p.sent (sweep_done now p' s send t p.tracks e f done m)),
        subst (All (λ q. is_done p' q ≡ false)) (sym (show_played-tracks (current_of p) next))
            (sweep_left now p' p.tracks),
      )
