-- ===== src/Player/Playback/Stream.antt =====
-- What is heard of what is written, over any course of messages and output blocks.
use mathlib.Core.Path.{subst}
use chanx_kit.Player.Playback.{
  Output, Playback, filled, process, still_waiting, Message, on_message, fill, filling,
}
use chanx_kit.Player.Playback.Loop.{Fills, fill-Fills}
use chanx_kit.Player.Playback.Queue.{IsValid, pending, on_message-IsValid, pending-write}
use chanx_kit.Prelude.{
  Bool-cases, List, [], arith, drop, if◌then◌else◌, inl, inr, length, refl, replicate, suc, take, ℕ,
  ◌++◌, ◌+◌, ◌-◌, ◌≡◌, All, append-nil, append_assoc, sym, ◌∙◌, ◌∷◌, ap, length-append,
  take-append-drop,
}

module _ {A : Type 0} (silence : A) where
  -- The samples of a block of output that were queued; the rest of it is silence.
  abbrev pub heard : ℕ → Playback A → List A
  heard size p = (filled size p).samples

  -- How much of it a block can take: all its room, or nothing while the prebuffer is awaited.
  abbrev pub room : ℕ → Playback A → ℕ
  room size p = if still_waiting p then 0 else size

  pub filled-Fills :
      (size : ℕ) (p : Playback A) → IsValid p → Fills (room size p) [] (pending p) (filled size p)
  filled-Fills size p v = elim (Bool-cases (still_waiting p)) [
    | inl w ↦ rw w (record { taken = refl; left = refl; fits = v.fits; counted = v.counted })
    | inr g ↦
        let z : size - 0 ≡ size = omega arith in
        rw g (
          subst (λ (n : ℕ). Fills n [] (pending p) (fill (suc (length p.blocks)) size (filling p)))
            z
            (fill-Fills (suc (length p.blocks)) size [] p.blocks p.offset p.queued (omega arith)
              v.fits v.counted))
  ]

  pub record Plays (size : ℕ) (p : Playback A) (out : Output A) : Type 0 where
    pub channel :
        out.channel
        ≡ take (room size p) (pending p)
          ++ replicate (size - length (take (room size p) (pending p))) silence
    pub left : pending out.next ≡ drop (room size p) (pending p)
    pub played : out.next.played ≡ p.played + length (take (room size p) (pending p))
    pub valid : IsValid out.next

  -- A block of output holds the first pending samples and then silence: all that fit, or none while
  -- the worklet waits for its prebuffer. Those samples are no longer pending, the counter of
  -- samples played grows by as many, and the queue's counter stays exact.
  pub process-Plays :
      (size : ℕ) (p : Playback A) → IsValid p → Plays size p (process silence size p)
  unfolding process
  process-Plays size p v =
      let f = filled-Fills size p v in
      record {
        channel = rw f.taken refl;
        left = f.left;
        played = rw f.taken refl;
        valid = record { fits = f.fits; counted = f.counted };
      }

  -- What reaches the worklet: a message, or the request for a block of output.
  pub data Event : Type 0 where
    message : Message A → Event
    block : ℕ → Event

  unfoldable pub after : Event → Playback A → Playback A
  after (message m) p = on_message m p
  after (block size) p = (process silence size p).next

  -- The samples heard in the course of the events.
  unfoldable pub heard_all : List Event → Playback A → List A
  unfolding after
  heard_all [] p = []
  heard_all (message m ∷ es) p = heard_all es (after (message m) p)
  heard_all (block size ∷ es) p = heard size p ++ heard_all es (after (block size) p)

  unfoldable pub after_all : List Event → Playback A → Playback A
  unfolding after
  after_all [] p = p
  after_all (e ∷ es) p = after_all es (after e p)

  -- The samples written in the course of the events, none of which is a `clear`.
  abbrev pub written : List Event → List A
  written [] = []
  written (message (Message.write samples) ∷ es) = samples ++ written es
  written (message Message.drain ∷ es) = written es
  written (message Message.clear ∷ es) = written es
  written (block size ∷ es) = written es

  abbrev pub IsKept : Event → Type 0
  IsKept (message (Message.write samples)) = Unit
  IsKept (message Message.drain) = Unit
  IsKept (message Message.clear) = ⊥
  IsKept (block size) = Unit

  -- As long as nothing is cleared, every sample written is heard once, in the order of writing, or
  -- is still pending; and the counter of samples played grows by the number heard.
  pub heard_all_lem :
      (es : List Event) (p : Playback A)
      → All IsKept es
      → IsValid p
      → (heard_all es p ++ pending (after_all es p) ≡ pending p ++ written es)
        × ((after_all es p).played ≡ p.played + length (heard_all es p))
  unfolding heard_all after_all on_message
  heard_all_lem [] p k v = (sym (append-nil (pending p)), omega arith)
  heard_all_lem (message (Message.write samples) ∷ es) p k v =
      let ih =
        heard_all_lem es (on_message (Message.write samples) p) k.1
          (on_message-IsValid (Message.write samples) p v) in
      (ih.0 ∙ rw (pending-write samples p v) (append_assoc (pending p) samples (written es)), ih.1)
  heard_all_lem (message Message.drain ∷ es) p k v =
      heard_all_lem es (on_message Message.drain p) k.1 (on_message-IsValid Message.drain p v)
  heard_all_lem (message Message.clear ∷ es) p k v = absurd k.0
  heard_all_lem (block size ∷ es) p k v =
      let plays = process-Plays size p v in
      let q = (process silence size p).next in
      let ih = heard_all_lem es q k.1 plays.valid in
      let f = filled-Fills size p v in
      let h = heard size p in
      let more = heard_all es q in
      (
        append_assoc h more _
            ∙ rw (ih.0, plays.left, f.taken)
                (sym (
                    append_assoc (take (room size p) (pending p)) (drop (room size p) (pending p))
                      (written es))
                  ∙ rw take-append-drop),
        omega (arith, ih.1, plays.played, length-append h more, ap length f.taken),
      )
