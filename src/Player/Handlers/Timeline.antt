-- ===== src/Player/Handlers/Timeline.antt =====
-- Where the utterances lie on the speaker's timeline.
use chanx_kit.Player.Playback.{Message}
use chanx_kit.Player.Tracks.{Player, Sound, Speaker, Track, id_of, is_done, mark, post_to, sweep}
use chanx_kit.Player.Handlers.{change_track}
use chanx_kit.Prelude.{
  some, none, false, All, All-mono, Bool, Distinct, List, Option, String, [], arith, has_key,
  if_both, refl, ℕ, ◌+◌, ◌==◌, ◌∷◌, ◌≡◌, ◌≤◌,
}

module _ {sound : Sound} where
  abbrev pub IsBefore : ℕ → Track sound → Type 0
  IsBefore written track = track.start + track.length ≤ written

  -- Every utterance lies within what has been written, and none is there twice.
  abbrev pub IsPlaced : Player sound → Type 0
  IsPlaced p = All (IsBefore p.written) p.tracks × Distinct id_of p.tracks

  pub All-change {κ μ} :
      (P : Track sound → Type κ) (Q : Track sound → Type μ) (id : String)
      (change : Track sound → Track sound) (tracks : List (Track sound))
      → ((t : Track sound) → P t → Q t)
      → ((t : Track sound) → P t → Q (change t))
      → All P tracks
      → All Q (change_track id change tracks)
  All-change P Q id change [] f g h = tt
  All-change P Q id change (t ∷ tracks) f g h =
      if_both (All Q) (t.id == id) (g t h.0, All-mono P Q f tracks h.1)
        (f t h.0, All-change P Q id change tracks f g h.1)

  pub has_key-change :
      (k id : String) (change : Track sound → Track sound) (tracks : List (Track sound))
      → ((t : Track sound) → (change t).id ≡ t.id)
      → has_key id_of k (change_track id change tracks) ≡ has_key id_of k tracks
  has_key-change k id change [] f = refl
  has_key-change k id change (t ∷ tracks) f =
      let e = f t in ground (arith, has_key-change k id change tracks f)

  pub Distinct-change :
      (id : String) (change : Track sound → Track sound) (tracks : List (Track sound))
      → ((t : Track sound) → (change t).id ≡ t.id)
      → Distinct id_of tracks
      → Distinct id_of (change_track id change tracks)
  Distinct-change id change [] f h = tt
  Distinct-change id change (t ∷ tracks) f h =
      let e = f t in
      ground (arith, has_key-change t.id id change tracks f, Distinct-change id change tracks f h.1)

  mark-id :
      (now : ℕ) (force : Bool) (p : Player sound) (t : Track sound)
      → (mark now force p t).0.id ≡ t.id
  unfolding mark
  mark-id now force p t = ground arith

  mark-IsBefore :
      (now : ℕ) (force : Bool) (p : Player sound) (t : Track sound) (w : ℕ)
      → IsBefore w t
      → IsBefore w (mark now force p t).0
  unfolding mark
  mark-IsBefore now force p t w h = ground arith

  pub sweep-IsBefore :
      (now : ℕ) (p : Player sound) (tracks : List (Track sound)) (w : ℕ)
      → All (IsBefore w) tracks
      → All (IsBefore w) (sweep now p tracks).0
  unfolding sweep
  sweep-IsBefore now p [] w h = tt
  sweep-IsBefore now p (t ∷ tracks) w h =
      let rest = sweep-IsBefore now p tracks w h.1 in
      if_both (All (IsBefore w)) (is_done p t) rest
        (mark-IsBefore now (is_done p t) p t w h.0, rest)

  has_key-sweep :
      (k : String) (now : ℕ) (p : Player sound) (tracks : List (Track sound))
      → has_key id_of k tracks ≡ false
      → has_key id_of k (sweep now p tracks).0 ≡ false
  unfolding sweep
  has_key-sweep k now p [] h = refl
  has_key-sweep k now p (t ∷ tracks) h =
      let e = mark-id now (is_done p t) p t in ground (arith, has_key-sweep k now p tracks)

  pub sweep-Distinct :
      (now : ℕ) (p : Player sound) (tracks : List (Track sound))
      → Distinct id_of tracks
      → Distinct id_of (sweep now p tracks).0
  unfolding sweep
  sweep-Distinct now p [] h = tt
  sweep-Distinct now p (t ∷ tracks) h =
      let e = mark-id now (is_done p t) p t in
      let rest = sweep-Distinct now p tracks h.1 in
      let k = has_key-sweep t.id now p tracks h.0 in
      if_both (Distinct id_of) (is_done p t) rest (rw e k, rest)

  pub post_to-IsPlaced :
      (o : Option (Speaker sound)) (m : Message (sound.Sample)) (p : Player sound)
      → IsPlaced p
      → IsPlaced (post_to o m p)
  post_to-IsPlaced none m p h = h
  post_to-IsPlaced (some s) m p h = h
