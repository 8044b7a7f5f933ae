-- ===== src/Audio/Chunker/Streams.antt =====
-- A whole recording: the chunks do not depend on how the audio was split into blocks.
use mathlib.Core.Path.{ap₂}
use chanx_kit.Audio.Chunker.{Bytes, Chunker, create, push, push_all}
use chanx_kit.Audio.Chunker.Cut.{AreFull, cut_lem}
use chanx_kit.Prelude.{
  All-append, List, [], ap, append-nil, append_assoc, append_inj, arith, length, length-append,
  refl, sym, ℕ, ◌++◌, ◌<◌, ◌∙◌, ◌∷◌, ◌≡◌, flat-append, flat,
}

-- Between two calls less than a chunk is held back.
pub record IsValid (c : Chunker) : Type 0 where
  pub sized : 0 < c.size
  pub short : length c.buffered < c.size

pub create-IsValid :
    (sample_rate chunk_ms channels : ℕ) → IsValid (create sample_rate chunk_ms channels)
unfolding create
create-IsValid sample_rate chunk_ms channels = record { sized = omega arith; short = omega arith }

pub push_lem :
    (bytes : Bytes) (c : Chunker)
    → IsValid c
    → AreFull c.size (push bytes c).0
      × (flat (push bytes c).0 ++ (push bytes c).1.buffered ≡ c.buffered ++ bytes)
      × IsValid (push bytes c).1
unfolding push
push_lem bytes c v =
    let joined = c.buffered ++ bytes in
    let (full, same, short) = cut_lem (length joined) c.size joined 0 v.sized (omega arith) in
    (full, same, record { sized = v.sized; short = short })

pub size-push : (bytes : Bytes) (c : Chunker) → (push bytes c).1.size ≡ c.size
unfolding push
size-push bytes c = refl

size-push_all : (blocks : List Bytes) (c : Chunker) → (push_all blocks c).1.size ≡ c.size
unfolding push_all
size-push_all [] c = refl
size-push_all (b ∷ bs) c = size-push_all bs (push b c).1 ∙ size-push b c

-- However a recording is split into blocks, each chunk has exactly the size, the chunks joined to
-- what is held back are the bytes pushed, in order, and less than a chunk is held back.
pub push_all_lem :
    (blocks : List Bytes) (c : Chunker)
    → IsValid c
    → AreFull c.size (push_all blocks c).0
      × (flat (push_all blocks c).0 ++ (push_all blocks c).1.buffered ≡ c.buffered ++ flat blocks)
      × IsValid (push_all blocks c).1
unfolding push_all
push_all_lem [] c v = (tt, sym (append-nil c.buffered), v)
push_all_lem (b ∷ bs) c v =
    let c' = (push b c).1 in
    let (full, same, valid) = push_lem b c v in
    let (full', same', valid') = push_all_lem bs c' valid in
    (
      All-append (λ chunk. length chunk ≡ c.size) (push b c).0 (push_all bs c').0 full
          (rw (size-push b c) at full'),
      rw flat-append (
          append_assoc (flat (push b c).0) (flat (push_all bs c').0) _
          ∙ rw same' (
              sym (append_assoc (flat (push b c).0) c'.buffered (flat bs))
              ∙ rw same (append_assoc c.buffered b (flat bs)))),
      valid',
    )

unique :
    (size : ℕ) (cs ds : List Bytes) (r s : Bytes)
    → AreFull size cs
    → AreFull size ds
    → length r < size
    → length s < size
    → flat cs ++ r ≡ flat ds ++ s
    → (cs ≡ ds) × (r ≡ s)
unique size [] [] r s f g h k e = (refl, e)
unique size [] (d ∷ ds) r s f g h k e =
    absurd (omega (arith, ap length e, length-append (d ++ flat ds) s, length-append d (flat ds)))
unique size (c ∷ cs) [] r s f g h k e =
    absurd (omega (arith, ap length e, length-append (c ++ flat cs) r, length-append c (flat cs)))
unique size (c ∷ cs) (d ∷ ds) r s f g h k e =
    let (p, q) =
      append_inj c d (flat cs ++ r) (flat ds ++ s) (f.0 ∙ sym g.0)
        (sym (append_assoc c (flat cs) r) ∙ e ∙ append_assoc d (flat ds) s) in
    let (t, u) = unique size cs ds r s f.1 g.1 h k q in (ap₂ ◌∷◌ p t, u)

-- The chunks of a recording, and what is left of it, do not depend on how it was split into blocks:
-- they are those of all its bytes pushed at once.
pub push_all-push :
    (blocks : List Bytes) (c : Chunker)
    → IsValid c
    → ((push_all blocks c).0 ≡ (push (flat blocks) c).0)
      × ((push_all blocks c).1.buffered ≡ (push (flat blocks) c).1.buffered)
push_all-push blocks c v =
    let (full, same, valid) = push_all_lem blocks c v in
    let (full', same', valid') = push_lem (flat blocks) c v in
    unique c.size _ _ _ _ full full' (omega (arith, valid, size-push_all blocks c))
      (omega (arith, valid', size-push (flat blocks) c)) (same ∙ sym same')
