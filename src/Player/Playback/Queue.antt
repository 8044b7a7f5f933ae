-- ===== src/Player/Playback/Queue.antt =====
-- What is queued, as one list of samples, and the counters that go with it.
use chanx_kit.Player.Playback.{Message, Playback, create, on_message}
use chanx_kit.Prelude.{
  List, [], ap, append-nil, arith, drop, drop-append_le, flat, flat-append, length, length-append,
  refl, ℕ, ◌++◌, ◌∷◌, ◌≡◌, ◌≤◌,
}

module _ {A : Type 0} where
  -- The samples that are still to be played, in order.
  abbrev pub pending_of : List (List A) → ℕ → List A
  pending_of blocks offset = drop offset (flat blocks)

  abbrev pub pending : Playback A → List A
  pending p = pending_of p.blocks p.offset

  -- The offset lies in the first block.
  abbrev pub Fits : List (List A) → ℕ → Type 0
  Fits [] offset = offset ≡ 0
  Fits (b ∷ bs) offset = offset ≤ length b

  -- The counter is the number of samples that are pending.
  pub record IsValid (p : Playback A) : Type 0 where
    pub fits : Fits p.blocks p.offset
    pub counted : p.queued ≡ length (pending p)

  pub create-IsValid : (prebuffer : ℕ) → IsValid (create prebuffer)
  create-IsValid prebuffer = record { fits = refl; counted = refl }

  pub Fits-zero : (bs : List (List A)) → Fits bs 0
  Fits-zero [] = refl
  Fits-zero (b ∷ bs) = omega arith

  Fits-snoc : (bs : List (List A)) (b : List A) (o : ℕ) → Fits bs o → Fits (bs ++ b ∷ []) o
  Fits-snoc [] b o h = omega arith
  Fits-snoc (c ∷ bs) b o h = h

  pub Fits-le : (bs : List (List A)) (o : ℕ) → Fits bs o → o ≤ length (flat bs)
  Fits-le [] o h = omega arith
  Fits-le (b ∷ bs) o h = omega (arith, length-append b (flat bs))

  -- A write puts its samples behind those that are pending.
  pub pending-write :
      (samples : List A) (p : Playback A)
      → IsValid p
      → pending (on_message (Message.write samples) p) ≡ pending p ++ samples
  unfolding on_message
  pending-write samples p v = rw (
    flat-append,
    append-nil,
    drop-append_le p.offset (flat p.blocks) samples (Fits-le p.blocks p.offset v.fits),
  )

  -- Every message keeps the invariant.
  pub on_message-IsValid : (m : Message A) (p : Playback A) → IsValid p → IsValid (on_message m p)
  unfolding on_message
  on_message-IsValid (Message.write samples) p v = record {
    fits = Fits-snoc p.blocks samples p.offset v.fits;
    counted = omega (
      arith,
      v.counted,
      ap length (pending-write samples p v),
      length-append (pending p) samples,
    );
  }
  on_message-IsValid Message.drain p v = record { fits = v.fits; counted = v.counted }
  on_message-IsValid Message.clear p v = record { fits = refl; counted = refl }
