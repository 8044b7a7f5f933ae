-- ===== src/Player/Playback/Reports.antt =====
-- The counts of samples played that the worklet posts.
use chanx_kit.Player.Playback.{Message, Playback, on_message, process}
use chanx_kit.Player.Playback.Queue.{IsValid, pending, on_message-IsValid}
use chanx_kit.Player.Playback.Stream.{
  block, message, Event, process-Plays, room, IsKept, after_all, heard, heard_all, heard_all_lem,
}
use chanx_kit.Player.Playback.Draining.{drain-Flows, heard_all-replicate}
use chanx_kit.Prelude.{
  some, none, true, All, Bool, Bool-cases, List, Option, [], any, any-append, ap, append_assoc,
  arith, drop-nil, eqb, inl, inr, leb, length, length-take, refl, replicate, suc, sym, zero, ℕ, ◌*◌,
  ◌++◌, ◌+◌, ◌<◌, ◌∙◌, ◌∷◌, ◌≡◌, ◌≤◌, ◌⊎◌,
}

abbrev count_of : Option ℕ → List ℕ
count_of none = []
count_of (some count) = count ∷ []

any_right : {A : Type 0} (p : A → Bool) (xs ys : List A) → any p ys ≡ true → any p (xs ++ ys) ≡ true
any_right p xs ys h = ground (arith, any-append p xs ys)

module _ {A : Type 0} (silence : A) where
  -- The counts posted in the course of the events.
  abbrev pub posts : List (Event silence) → Playback A → List ℕ
  posts [] p = []
  posts (message m ∷ es) p = posts es (on_message m p)
  posts (block size ∷ es) p =
      count_of (process silence size p).posted ++ posts es (process silence size p).next

  -- What one block of output does to the count since the last report.
  record Reports (size : ℕ) (p : Playback A) : Type 0 where
    few : (process silence size p).next.since_report < 1024
    posted :
        ((process silence size p).posted ≡ some (process silence size p).next.played)
        ⊎ (((process silence size p).posted ≡ none)
            × ((process silence size p).next.since_report ≡ p.since_report + size))

  process-Reports : (size : ℕ) (p : Playback A) → Reports size p
  unfolding process
  process-Reports size p = elim (Bool-cases (leb 1024 (p.since_report + size))) [
    | inl due ↦ record { few = rw due (omega arith); posted = inl (rw due refl) }
    | inr early ↦ record {
      few = rw early (ground arith);
      posted = inr (rw early refl, rw early refl);
    }
  ]

  -- With nothing left to play the count is posted within 1024 samples.
  posts_idle :
      (n size total : ℕ) (p : Playback A)
      → p.played ≡ total
      → IsValid p
      → pending p ≡ []
      → p.since_report < 1024
      → 1024 ≤ p.since_report + n * size
      → any (eqb total) (posts (replicate n (block size)) p) ≡ true
  posts_idle zero size total p c v e s l = absurd (omega arith)
  posts_idle (suc n) size total p c v e s l =
      let plays = process-Plays silence size p v in
      let q = (process silence size p).next in
      let r = process-Reports size p in
      let left : pending q ≡ [] = plays.left ∙ rw e (drop-nil (room silence size p)) in
      let played : q.played ≡ total =
        omega
          (arith, c, plays.played, length-take (room silence size p) (pending p), ap length e) in
      elim r.posted [
        | inl posted ↦ let same : eqb total q.played ≡ true = ground arith in rw (posted, same) refl
        | inr early ↦
            let size_of : suc n * size ≡ size + n * size = grind arith in
            let ih =
              posts_idle n size total q played plays.valid left r.few (omega (arith, early.1)) in
            any_right (eqb total) (count_of (process silence size p).posted) _ ih
      ]

  posts-append :
      (es fs : List (Event silence)) (p : Playback A)
      → posts (es ++ fs) p ≡ posts es p ++ posts fs (after_all silence es p)
  unfolding after_all
  posts-append [] fs p = refl
  posts-append (message m ∷ es) fs p = posts-append es fs (on_message m p)
  posts-append (block size ∷ es) fs p =
      let counts = count_of (process silence size p).posted in
      ap (λ (l : List ℕ). counts ++ l) (posts-append es fs (process silence size p).next)
      ∙ sym (append_assoc counts (posts es (process silence size p).next) _)

  -- The state after a number of blocks.
  after_blocks :
      (n size : ℕ) (p : Playback A)
      → IsValid p
      → p.since_report < 1024
      → let q = after_all silence (replicate n (block size)) p in
        IsValid q × (q.since_report < 1024)
  unfolding after_all
  after_blocks zero size p v s = (v, s)
  after_blocks (suc n) size p v s =
      after_blocks n size (process silence size p).next (process-Plays silence size p v).valid
        (process-Reports size p).few

  blocks-IsKept : (n size : ℕ) → All (IsKept silence) (replicate n (block size))
  blocks-IsKept zero size = tt
  blocks-IsKept (suc n) size = (tt, blocks-IsKept n size)

  -- After a drain, all that is pending is heard in as many blocks of output as it fills, whatever
  -- the prebuffer; and within 1024 samples more, the worklet posts that it has been played.
  pub heard_all-drain :
      (m n size : ℕ) (p : Playback A)
      → IsValid p
      → p.since_report < 1024
      → length (pending p) ≤ m * size
      → 1024 ≤ n * size
      → let q = on_message Message.drain p in
        let es = replicate m (block size) ++ replicate n (block size) in
        (heard_all silence (replicate m (block size)) q ≡ pending p)
        × (any (eqb (p.played + length (pending p))) (posts es q) ≡ true)
  unfolding on_message
  heard_all-drain m n size p v s l k =
      let q = on_message Message.drain p in
      let first : List (Event silence) = replicate m (block size) in
      let vq = on_message-IsValid Message.drain p v in
      let (heard, left) = heard_all-replicate silence m size q vq (drain-Flows p v) l in
      let r = after_all silence first q in
      let (vr, sr) = after_blocks m size q vq s in
      let counted = (heard_all_lem silence first q (blocks-IsKept m size) vq).1 in
      let played : r.played ≡ p.played + length (pending p) =
        omega (arith, counted, ap length heard) in
      let total = p.played + length (pending p) in
      let idle = posts_idle n size total r played vr left sr (omega arith) in
      (heard, rw posts-append (any_right (eqb total) (posts first q) _ idle))

  -- The last count posted in the course of the events, or `last` if none was.
  abbrev pub last_count : ℕ → Option ℕ → ℕ
  last_count last none = last
  last_count last (some count) = count

  abbrev pub last_post : ℕ → List (Event silence) → Playback A → ℕ
  last_post last [] p = last
  last_post last (message m ∷ es) p = last_post last es (on_message m p)
  last_post last (block size ∷ es) p =
      last_post (last_count last (process silence size p).posted) es (process silence size p).next

  -- How far the last count posted is behind.
  pub record IsNear (last : ℕ) (p : Playback A) : Type 0 where
    pub valid : IsValid p
    pub behind : last ≤ p.played
    pub near : p.played ≤ last + p.since_report
    pub few : p.since_report < 1024

  process-IsNear :
      (size last : ℕ) (p : Playback A)
      → IsNear last p
      → IsNear (last_count last (process silence size p).posted) (process silence size p).next
  process-IsNear size last p h =
      let plays = process-Plays silence size p h.valid in
      let r = process-Reports size p in
      let room_le : room silence size p ≤ size = ground arith in
      let played : (process silence size p).next.played ≤ p.played + size =
        omega (arith, plays.played, length-take (room silence size p) (pending p)) in
      elim r.posted [
        | inl posted ↦
            rw posted (record {
              valid = plays.valid;
              behind = omega arith;
              near = omega arith;
              few = r.few;
            })
        | inr quiet ↦ rw quiet.0 (record {
          valid = plays.valid;
          behind = omega (arith, plays.played);
          near = omega (arith, quiet.1, h.near);
          few = r.few;
        })
      ]

  on_message-IsNear :
      (m : Message A) (last : ℕ) (p : Playback A) → IsNear last p → IsNear last (on_message m p)
  unfolding on_message
  on_message-IsNear (Message.write samples) last p h = record {
    valid = on_message-IsValid (Message.write samples) p h.valid;
    behind = h.behind;
    near = h.near;
    few = h.few;
  }
  on_message-IsNear Message.drain last p h = record {
    valid = on_message-IsValid Message.drain p h.valid;
    behind = h.behind;
    near = h.near;
    few = h.few;
  }
  on_message-IsNear Message.clear last p h = record {
    valid = on_message-IsValid Message.clear p h.valid;
    behind = h.behind;
    near = h.near;
    few = h.few;
  }

  -- Whatever is written, drained, cleared and played, the count that the worklet posted last is never
  -- ahead of the samples played, and behind them by less than 1024.
  pub last_post-IsNear :
      (es : List (Event silence)) (last : ℕ) (p : Playback A)
      → IsNear last p
      → IsNear (last_post last es p) (after_all silence es p)
  unfolding after_all
  last_post-IsNear [] last p h = h
  last_post-IsNear (message m ∷ es) last p h =
      last_post-IsNear es last (on_message m p) (on_message-IsNear m last p h)
  last_post-IsNear (block size ∷ es) last p h =
      last_post-IsNear es (last_count last (process silence size p).posted)
        (process silence size p).next (process-IsNear size last p h)
