-- ===== src/Audio/Pcm/Streams.antt =====
-- Whole blocks: what is read from any bytes, and from bytes that were written.
use native.Mathlib.Nat.{div-mul-le_self}
use chanx_kit.Audio.Chunker.{IsByte, Bytes}
use chanx_kit.Audio.Pcm.{Sample, from_pcm16, get_int16, read_frames, signed, sum_channels}
use chanx_kit.Prelude.{
  pos, some, +ℤ_parts, All, List, [], ap, arith, get_elem?-All, length, neg_part, pos_part, refl,
  suc, zero, ℕ, ℤ, ◌*◌, ◌+ℤ◌, ◌+◌, ◌/◌, ◌<◌, ◌∷◌, ◌≡◌, ◌≤◌,
}

-- No further from 0 than the bound.
abbrev IsWithin : ℕ → ℤ → Type 0
IsWithin bound z = (pos_part z ≤ bound) × (neg_part z ≤ bound)

signed-IsWithin : (w : ℕ) → w < 0x10000 → IsWithin 0x8000 (signed w)
signed-IsWithin w h = ground arith

get_int16_lem :
    (bytes : Bytes) (offset : ℕ)
    → All IsByte bytes
    → offset + 1 < length bytes
    → (z : ℤ) × (get_int16 bytes offset ≡ some z) × IsWithin 0x8000 z
unfolding get_int16
get_int16_lem bytes offset b l =
    let (lo, e, p) = get_elem?-All IsByte bytes offset b (omega arith) in
    let (hi, f, q) = get_elem?-All IsByte bytes (offset + 1) b l in
    (signed (lo + hi * 0x100), rw (e, f) refl, signed-IsWithin (lo + hi * 0x100) (omega arith))

sum_channels_lem :
    (count first : ℕ) (bytes : Bytes) (channel : ℕ) (sum : ℤ)
    → All IsByte bytes
    → (first + (channel + count)) * 2 ≤ length bytes
    → IsWithin (0x8000 * channel) sum
    → (z : ℤ) × (sum_channels count first bytes channel sum ≡ some z)
      × IsWithin (0x8000 * (channel + count)) z
unfolding sum_channels
sum_channels_lem zero first bytes channel sum b l w = (sum, refl, omega arith)
sum_channels_lem (suc count) first bytes channel sum b l w =
    let (v, e, k) = get_int16_lem bytes ((first + channel) * 2) b (omega arith) in
    let (z, f, m) =
      sum_channels_lem count first bytes (channel + 1) (sum +ℤ v) b (omega arith)
        (ground (arith, +ℤ_parts sum v)) in
    (z, rw e f, omega arith)

-- Between -1 and 1.
pub record IsUnit (channels : ℕ) (s : Sample) : Type 0 where
  pub scale : s.den ≡ 0x8000 * channels
  pub above : pos_part s.num ≤ s.den
  pub below : neg_part s.num ≤ s.den

read_frames_lem :
    (count channels : ℕ) (bytes : Bytes) (frame : ℕ)
    → All IsByte bytes
    → (frame + count) * channels * 2 ≤ length bytes
    → (out : List Sample) × (read_frames count channels bytes frame ≡ some out)
      × (length out ≡ count)
      × All (IsUnit channels) out
unfolding read_frames
read_frames_lem zero channels bytes frame b l = ([], refl, refl, tt)
read_frames_lem (suc count) channels bytes frame b l =
    let (z, e, w) =
      sum_channels_lem channels (frame * channels) bytes 0 (pos 0) b (grind arith) (omega arith) in
    let (out, f, n, u) = read_frames_lem count channels bytes (frame + 1) b (grind arith) in
    let s : Sample = record { num = z; den = 0x8000 * channels } in
    (
      s ∷ out,
      rw (e, f) refl,
      ap suc n,
      (record { scale = refl; above = omega arith; below = omega arith }, u),
    )

-- Any bytes can be read, with one channel or more: no read is past their end, there is one sample for each whole frame, and
-- each lies between -1 and 1.
pub from_pcm16_lem :
    (bytes : Bytes) (channels : ℕ)
    → All IsByte bytes
    → 0 < channels
    → (out : List Sample) × (from_pcm16 bytes channels ≡ some out)
      × (length out ≡ length bytes / 2 / channels)
      × All (IsUnit channels) out
unfolding from_pcm16
from_pcm16_lem bytes channels b h =
    read_frames_lem (length bytes / 2 / channels) channels bytes 0 b
      (omega (arith, div-mul-le_self (length bytes / 2) channels))
