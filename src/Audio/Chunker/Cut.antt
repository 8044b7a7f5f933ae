-- ===== src/Audio/Chunker/Cut.antt =====
-- What one `push` does.
use chanx_kit.Audio.Chunker.{Bytes, cut}
use chanx_kit.Prelude.{
  All, Bool-cases, List, arith, drop, inl, inr, leb, length, length-drop, length-take, refl, suc,
  zero, ℕ, ◌++◌, ◌+◌, ◌-◌, ◌<◌, ◌≡◌, ◌≤◌, append_assoc, drop-drop, take, take-append-drop, ◌∙◌,
  flat,
}

-- Every chunk has the size.
abbrev pub AreFull : ℕ → List Bytes → Type 0
AreFull size = All (λ chunk. length chunk ≡ size)

-- The chunks, joined to what stands behind the last offset, are what stood behind the first.
pub cut_lem :
    (fuel size : ℕ) (joined : Bytes) (offset : ℕ)
    → 0 < size
    → length joined - offset ≤ fuel
    → AreFull size (cut fuel size joined offset).0
      × (flat (cut fuel size joined offset).0 ++ drop (cut fuel size joined offset).1 joined
          ≡ drop offset joined)
      × (length (drop (cut fuel size joined offset).1 joined) < size)
unfolding cut
cut_lem zero size joined offset p h = (tt, refl, omega (arith, length-drop offset joined))
cut_lem (suc fuel) size joined offset p h = elim (Bool-cases (leb size (length joined - offset))) [
  | inl more ↦
      let (full, same, short) = cut_lem fuel size joined (offset + size) p (ground arith) in
      rw more (
        (
          (ground (arith, length-take size (drop offset joined), length-drop offset joined), full),
          append_assoc (take size (drop offset joined)) _ _
              ∙ rw (same, ← drop-drop) (take-append-drop size (drop offset joined)),
          short,
        ))
  | inr less ↦ rw less (tt, refl, ground (arith, length-drop offset joined))
]
