-- ===== src/Player/Playback/Draining.antt =====
-- What is queued is played to its end.
use chanx_kit.Player.Playback.{
  Message, Playback, filled, is_empty, on_message, process, still_waiting,
}
use chanx_kit.Player.Playback.Queue.{IsValid, pending, pending_of}
use chanx_kit.Player.Playback.Stream.{
  block, after_all, filled-Fills, heard_all, process-Plays, room,
}
use chanx_kit.Prelude.{
  true, false, Bool, Bool-cases, List, [], arith, drop, drop-nil, inl, inr, le-or-lt, length,
  length-drop, ltb, refl, replicate, suc, sym, take-append-drop, zero, ℕ, ◌&&◌, ◌*◌, ◌+◌, ◌∙◌, ◌∷◌,
  ◌≡◌, ◌≤◌, ◌⊎◌, not, ◌||◌,
}

pub and_false : (b c : Bool) → b ≡ false → (b && c) ≡ false
and_false b c h = ground arith

goes_on : (w d : Bool) → w ≡ false → d ≡ false → (w || (d && not w)) ≡ false
goes_on w d h k = ground arith

module _ {A : Type 0} where
  -- The worklet plays, or has nothing to play.
  abbrev pub Flows : Playback A → Type 0
  Flows p = (still_waiting p ≡ false) ⊎ (pending p ≡ [])

  pending_of-nil :
      (blocks : List (List A)) (offset : ℕ) → is_empty blocks ≡ true → pending_of blocks offset ≡ []
  pending_of-nil [] offset h = drop-nil offset
  pending_of-nil (b ∷ bs) offset h = cc

  nil_of_length : (xs : List A) → length xs ≤ 0 → xs ≡ []
  nil_of_length [] h = refl
  nil_of_length (x ∷ xs) h = absurd (omega arith)

  -- A drain makes it play, whatever its prebuffer.
  pub drain-Flows : (p : Playback A) → IsValid p → Flows (on_message Message.drain p)
  unfolding on_message
  drain-Flows p v = elim (le-or-lt p.queued 0) [
    | inl none_left ↦ inr (nil_of_length (pending p) (omega (arith, v.counted)))
    | inr some_left ↦ let e : ltb 0 p.queued ≡ true = ground arith in inl (rw e (ground arith))
  ]

module _ {A : Type 0} (silence : A) where
  process-Flows :
      (size : ℕ) (p : Playback A) → IsValid p → Flows p → Flows (process silence size p).next
  unfolding process
  process-Flows size p v (inl plays) = elim (Bool-cases (is_empty (filled size p).blocks)) [
    | inl dry ↦ inr (pending_of-nil (filled size p).blocks (filled size p).offset dry)
    | inr more ↦
        let q = (process silence size p).next in
        let e : q.waiting ≡ false =
          goes_on (still_waiting p) (is_empty (filled size p).blocks) plays more in
        inl (and_false q.waiting _ e)
  ]
  process-Flows size p v (inr nothing) =
      inr ((filled-Fills silence size p v).left ∙ rw nothing (drop-nil (room silence size p)))

  -- A block takes all that it has room for, if the worklet plays.
  pending-process_le :
      (n size : ℕ) (p : Playback A)
      → IsValid p
      → Flows p
      → length (pending p) ≤ suc n * size
      → length (pending (process silence size p).next) ≤ n * size
  pending-process_le n size p v (inl plays) l =
      let left : pending (process silence size p).next ≡ drop (room silence size p) (pending p) =
        (process-Plays silence size p v).left in
      let e : suc n * size ≡ n * size + size = grind arith in
      rw (left, plays) (omega (arith, length-drop size (pending p)))
  pending-process_le n size p v (inr nothing) l =
      let left : pending (process silence size p).next ≡ drop (room silence size p) (pending p) =
        (process-Plays silence size p v).left in
      rw (left, nothing, drop-nil) (omega arith)

  pub heard_all-replicate :
      (n size : ℕ) (p : Playback A)
      → IsValid p
      → Flows p
      → length (pending p) ≤ n * size
      → (heard_all silence (replicate n (block size)) p ≡ pending p)
        × (pending (after_all silence (replicate n (block size)) p) ≡ [])
  unfolding heard_all after_all
  heard_all-replicate zero size p v f l =
      let e = nil_of_length (pending p) (omega arith) in (sym e, e)
  heard_all-replicate (suc n) size p v f l =
      let plays = process-Plays silence size p v in
      let q = (process silence size p).next in
      let taken = (filled-Fills silence size p v).taken in
      let short = pending-process_le n size p v f l in
      let ih = heard_all-replicate n size q plays.valid (process-Flows size p v f) short in
      (rw (taken, ih.0, plays.left) (take-append-drop (room silence size p) (pending p)), ih.1)
