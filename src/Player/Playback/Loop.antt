-- ===== src/Player/Playback/Loop.antt =====
-- The loop of `process` takes exactly the first pending samples, as many as fit the output.
use chanx_kit.Player.Playback.{Filling, fill, round}
use chanx_kit.Player.Playback.Queue.{Fits, pending_of, Fits-zero}
use chanx_kit.Prelude.{
  Bool-cases, List, [], append-nil, append_assoc, arith, drop, drop-drop, drop-nil, inl, inr,
  length, ltb, refl, suc, sym, take, take-add, take-nil, zero, ℕ, ◌++◌, ◌+◌, ◌-◌, ◌<◌, ◌∙◌, ◌∷◌,
  ◌≡◌, ◌≤◌, ◌⊎◌, eqb, min, ap, drop-append_ge, drop-append_le, flat, length-append, length-drop,
  length-take, take-append_le, ◌≢◌,
}

module _ {A : Type 0} where
  -- What the loop promises of its result, from `samples` with `pend` pending and `room` left.
  pub record Fills (room : ℕ) (samples pend : List A) (t : Filling A) : Type 0 where
    pub taken : t.samples ≡ samples ++ take room pend
    pub left : pending_of t.blocks t.offset ≡ drop room pend
    pub fits : Fits t.blocks t.offset
    pub counted : t.queued ≡ length (pending_of t.blocks t.offset)

  -- A state in which nothing more can be taken.
  Fills-done :
      (room : ℕ) (t : Filling A)
      → (room ≡ 0) ⊎ (pending_of t.blocks t.offset ≡ [])
      → Fits t.blocks t.offset
      → t.queued ≡ length (pending_of t.blocks t.offset)
      → Fills room t.samples (pending_of t.blocks t.offset) t
  Fills-done room t (inl e) f c = record {
    taken = rw e (sym (append-nil t.samples));
    left = rw e refl;
    fits = f;
    counted = c;
  }
  Fills-done room t (inr e) f c = record {
    taken = rw (e, take-nil) (sym (append-nil t.samples));
    left = rw (e, drop-nil);
    fits = f;
    counted = c;
  }

  -- A round that takes `count`, and a rest that takes what room is left then.
  Fills-step :
      (count room room' : ℕ) (samples pend : List A) (t : Filling A)
      → room ≡ count + room'
      → Fills room' (samples ++ take count pend) (drop count pend) t
      → Fills room samples pend t
  Fills-step count room room' samples pend t e h = record {
    taken = h.taken ∙ rw (e, take-add) (append_assoc samples (take count pend) _);
    left = h.left ∙ rw e (drop-drop count room' pend);
    fits = h.fits;
    counted = h.counted;
  }

  -- A full output ends the loop.
  fill_full : (fuel size : ℕ) (s : Filling A) → size ≤ length s.samples → fill fuel size s ≡ s
  unfolding fill
  fill_full zero size s h = refl
  fill_full (suc fuel) size s h = ground arith

  module _ (size : ℕ) (samples b : List A) (bs : List (List A)) (offset queued : ℕ) where
    abbrev pend : List A
    pend = pending_of (b ∷ bs) offset

    abbrev count : ℕ
    count = min (size - length samples) (length b - offset)

    abbrev next : Filling A
    next =
        round size b bs
          (record { samples = samples; blocks = b ∷ bs; offset = offset; queued = queued })

    record Rounds (s : Filling A) : Type 0 where
      taken : s.samples ≡ samples ++ take count pend
      left : pending_of s.blocks s.offset ≡ drop count pend
      fits : Fits s.blocks s.offset
      counted : s.queued ≡ length (drop count pend)
      ends : (s.blocks ≡ bs) ⊎ (size ≤ length s.samples)

    take-pend : offset ≤ length b → take count pend ≡ take count (drop offset b)
    take-pend f =
        rw (drop-append_le offset b (flat bs) f)
          (take-append_le count (drop offset b) (flat bs) (omega (arith, length-drop offset b)))

    -- One round takes `count` samples, and leaves the first block or fills the output.
    round_lem : offset ≤ length b → queued ≡ length pend → length samples < size → Rounds next
    unfolding round
    round_lem f c h =
        let all = b ++ flat bs in
        let moved = drop-drop offset count all in
        let counted =
          (let e : queued - count ≡ length (drop count pend) =
              omega (arith, c, length-drop count pend) in
            e) in
        let taken = ap (λ (l : List A). samples ++ l) (sym (take-pend f)) in
        elim (Bool-cases (eqb (offset + count) (length b))) [
          | inl shifted ↦
              let e : offset + count ≡ length b = ground arith in
              let z : length b - length b ≡ 0 = omega arith in
              record {
                taken = taken;
                left = rw shifted (
                    sym
                      (moved ∙ rw e (drop-append_ge (length b) b (flat bs) (omega arith) ∙ rw z)));
                fits = rw shifted (Fits-zero bs);
                counted = counted;
                ends = inl (rw shifted);
              }
          | inr stays ↦
              let e : offset + count ≢ length b = ground arith in
              record {
                taken = taken;
                left = rw stays (sym moved);
                fits = rw stays (omega arith);
                counted = counted;
                ends = inr (
                    omega (
                      arith,
                      length-append samples (take count (drop offset b)),
                      length-take count (drop offset b),
                      length-drop offset b,
                    ));
              }
        ]

  -- With one round more than there are blocks the loop ends because the output is full or nothing
  -- is left, and takes the pending samples in order.
  pub fill-Fills :
      (fuel size : ℕ) (samples : List A) (blocks : List (List A)) (offset queued : ℕ)
      → length blocks < fuel
      → Fits blocks offset
      → queued ≡ length (pending_of blocks offset)
      → Fills (size - length samples) samples (pending_of blocks offset) (
          fill fuel size
            (record { samples = samples; blocks = blocks; offset = offset; queued = queued }))
  unfolding fill
  fill-Fills zero size samples blocks offset queued l f c = absurd (omega arith)
  fill-Fills (suc fuel) size samples [] offset queued l f c =
      Fills-done (size - length samples) _ (inr (drop-nil offset)) f c
  fill-Fills (suc fuel) size samples (b ∷ bs) offset queued l f c =
      elim (Bool-cases (ltb (length samples) size)) [
        | inr full ↦ rw (full, fill) (Fills-done (size - length samples) _ (inl (ground arith)) f c)
        | inl space ↦
            let s = next size samples b bs offset queued in
            let n = count size samples b bs offset queued in
            let p = pend size samples b bs offset queued in
            let r = round_lem size samples b bs offset queued f c (ground arith) in
            let rest : Fills (size - length s.samples) s.samples (pending_of s.blocks s.offset)
                (fill fuel size s) =
              elim r.ends [
                | inl shrinks ↦
                    fill-Fills fuel size s.samples s.blocks s.offset s.queued
                      (omega (arith, ap (length {A = List A}) shrinks)) r.fits
                      (r.counted ∙ ap length (sym r.left))
                | inr full ↦ rw (fill_full fuel size s full) (
                    Fills-done (size - length s.samples) s (inl (omega arith)) r.fits
                      (r.counted ∙ ap length (sym r.left)))
              ] in
            let room : size - length samples ≡ n + (size - length s.samples) = omega (
              arith,
              ap length r.taken,
              length-append samples (take n p),
              length-take n p,
              length-drop offset (b ++ flat bs),
              length-append b (flat bs),
            ) in
            rw (space, fill)
              (Fills-step n (size - length samples) (size - length s.samples) samples p _ room
                (rw (← r.taken, ← r.left) rest))
      ]
